-- ===== src/Proxy/Fill/Calls.antt =====
-- What `begin` and `finish` do to the calls of the group.
use package_firewall.Common.{
  ℕ, suc, ◌≡◌, refl, sym, ap, ◌∙◌, inl, inr, Bool, true, false, none, some, ◌∷◌, Option-cases,
}
use package_firewall.Common.Text.{Text}
use package_firewall.Common.Dict.{lookup, insert, delete}
use package_firewall.Proxy.Fill.{FillGroup, begin, finish, is_call}

pub begin-led :
    (key : Text) (g h : FillGroup) (call : ℕ)
    → begin key g ≡ ((call, true), h)
    → (lookup key g.calls ≡ none) × (h.calls ≡ insert key call g.calls) × (h.closed ≡ g.closed)
unfolding begin
begin-led key g h call e = elim (Option-cases (lookup key g.calls)) [
  | inr (c, f) ↦
      let k : ◌≡◌ {A = (ℕ × Bool) × FillGroup} ((c, false), g) ((call, true), h) =
        rw (f, begin) at e in
      cc
  | inl f ↦
      let k : ◌≡◌ {A = (ℕ × Bool) × FillGroup}
          (
            (g.next, true),
            record { calls = insert key g.next g.calls; next = suc g.next; closed = g.closed },
          )
          ((call, true), h) =
        rw (f, begin) at e in
      let number : g.next ≡ call = ap (λ (x : (ℕ × Bool) × FillGroup). x.0.0) k in
      (
        f,
        sym (ap (λ (x : (ℕ × Bool) × FillGroup). x.1.calls) k)
            ∙ ap (λ (n : ℕ). insert key n g.calls) number,
        sym (ap (λ (x : (ℕ × Bool) × FillGroup). x.1.closed) k),
      )
]

pub begin-joined :
    (key : Text) (g h : FillGroup) (call : ℕ)
    → begin key g ≡ ((call, false), h)
    → (lookup key g.calls ≡ some call) × (h.calls ≡ g.calls) × (h.closed ≡ g.closed)
unfolding begin
begin-joined key g h call e = elim (Option-cases (lookup key g.calls)) [
  | inr (c, f) ↦
      let k : ◌≡◌ {A = (ℕ × Bool) × FillGroup} ((c, false), g) ((call, false), h) =
        rw (f, begin) at e in
      (
        f ∙ ap (λ (x : (ℕ × Bool) × FillGroup). some x.0.0) k,
        sym (ap (λ (x : (ℕ × Bool) × FillGroup). x.1.calls) k),
        sym (ap (λ (x : (ℕ × Bool) × FillGroup). x.1.closed) k),
      )
  | inl f ↦
      let k : ◌≡◌ {A = (ℕ × Bool) × FillGroup}
          (
            (g.next, true),
            record { calls = insert key g.next g.calls; next = suc g.next; closed = g.closed },
          )
          ((call, false), h) =
        rw (f, begin) at e in
      cc
]

-- The group after a finish of a call that is in the map.
pub finish-registered :
    (key : Text) (call : ℕ) (g : FillGroup)
    → is_call (lookup key g.calls) call ≡ true
    → ((finish key call g).calls ≡ delete key g.calls)
      × ((finish key call g).closed ≡ call ∷ g.closed)
unfolding finish
finish-registered key call g h = rw (h, finish) (refl, refl)
