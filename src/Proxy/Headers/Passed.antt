-- ===== src/Proxy/Headers/Passed.antt =====
-- What of a message's headers is passed on, name by name.
use mathlib.Core.List.{append_assoc, append-nil}
use package_firewall.Common.{
  ◌≡◌, refl, sym, ap, ◌∙◌, inl, inr, Bool, true, false, ◌||◌, [], ◌∷◌, ◌++◌, if◌then◌else◌, arith,
  Bool-cases,
}
use package_firewall.Common.Text.{Text, text_eq, text_eq_iff, equal_fold}
use package_firewall.Proxy.Headers.{
  Headers, values, del, add, set, hop_by_hop, sensitive_request_header, copy_headers,
  copy_request_headers, copy_response_headers, cache_header, is_safe, safe_headers,
}

pub values-append : (k : Text) (g h : Headers) → values k (g ++ h) ≡ values k g ++ values k h
unfolding values
values-append k [] h = refl
values-append k ((j, v) ∷ g) h = ground (arith, values-append k g h)

pub values-del :
    (k j : Text) (h : Headers) → values j (del k h) ≡ (if text_eq k j then [] else values j h)
unfolding values del
values-del k j [] = ground arith
values-del k j ((i, v) ∷ h) =
    ground (arith, text_eq_iff k j, text_eq_iff i k, text_eq_iff i j, values-del k j h)

pub values-set :
    (k j v : Text) (h : Headers)
    → values j (set k v h) ≡ (if text_eq k j then v ∷ [] else values j h)
unfolding set add values
values-set k j v h =
    rw (values-append j (del k h) ((k, v) ∷ []), values-del k j h)
      (elim (Bool-cases (text_eq k j)) [
        | inl same ↦ rw same refl
        | inr other ↦ rw other (append-nil (values j h))
      ])

-- One field of the loop.
copied :
    (k j v : Text) (dst src : Headers) (b c : Bool)
    → (text_eq j k ≡ true → b ≡ c)
    → values k (if b then dst else add j v dst) ++ (if c then [] else values k src)
      ≡ values k dst ++ (if c then [] else values k ((j, v) ∷ src))
unfolding values add
copied k j v dst src true true h = refl
copied k j v dst src true false h = elim (Bool-cases (text_eq j k)) [
  | inl same ↦ let e : true ≡ false = h same in let never : ⊥ = cc in absurd never
  | inr other ↦ rw other refl
]
copied k j v dst src false true h = elim (Bool-cases (text_eq j k)) [
  | inl same ↦ let e : false ≡ true = h same in let never : ⊥ = cc in absurd never
  | inr other ↦
      rw (values-append k dst ((j, v) ∷ []), other, append-nil (values k dst))
        (append-nil (values k dst))
]
copied k j v dst src false false h = elim (Bool-cases (text_eq j k)) [
  | inl same ↦
      rw (values-append k dst ((j, v) ∷ []), same)
        (append_assoc (values k dst) (v ∷ []) (values k src))
  | inr other ↦ rw (values-append k dst ((j, v) ∷ []), other, append-nil (values k dst)) refl
]

-- After the copy a name has the values that it had before, and then those of the source if the
-- name is neither a hop's nor skipped.
pub values-copy_headers :
    (skip : Text → Bool) (k : Text) (dst src : Headers)
    → values k (copy_headers skip dst src)
      ≡ values k dst ++ (if hop_by_hop k || skip k then [] else values k src)
unfolding copy_headers values
values-copy_headers skip k dst [] =
    sym (append-nil (values k dst))
    ∙ ap (λ vs. values k dst ++ vs)
        (elim (Bool-cases (hop_by_hop k || skip k)) [ inl e ↦ rw e refl | inr e ↦ rw e refl ])
values-copy_headers skip k dst ((j, v) ∷ src) =
    values-copy_headers skip k (if hop_by_hop j || skip j then dst else add j v dst) src
    ∙ copied k j v dst src (hop_by_hop j || skip j) (hop_by_hop k || skip k)
        (λ e. ap (λ (x : Text). hop_by_hop x || skip x) ((text_eq_iff j k).0 e))

pub values-copy_request_headers :
    (k : Text) (src : Headers)
    → values k (copy_request_headers [] src)
      ≡ (if hop_by_hop k || sensitive_request_header k then [] else values k src)
unfolding copy_request_headers values
values-copy_request_headers k src = values-copy_headers sensitive_request_header k [] src

pub values-copy_response_headers :
    (k : Text) (dst src : Headers)
    → values k (copy_response_headers dst src)
      ≡ values k dst ++ (if hop_by_hop k || equal_fold k cache_header then [] else values k src)
unfolding copy_response_headers
values-copy_response_headers k dst src =
    values-copy_headers (λ header. equal_fold header cache_header) k dst src

pub values-safe_headers :
    (k : Text) (h : Headers) → values k (safe_headers h) ≡ (if is_safe k then values k h else [])
unfolding safe_headers values
values-safe_headers k [] = ground arith
values-safe_headers k ((j, v) ∷ h) = ground (arith, text_eq_iff j k, values-safe_headers k h)
