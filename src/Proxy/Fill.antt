-- ===== src/Proxy/Fill.antt =====
-- internal/proxy/fill.go: the group of the requests that fill the cache. A call is known by a number,
-- which stands for its address; the mutex makes each method one step.
pub mod Calls
pub mod Requests
pub mod Single
use package_firewall.Common.{
  ℕ, suc, Bool, true, false, Option, none, some, List, [], ◌∷◌, ◌==◌, if◌then◌else◌,
}
use package_firewall.Common.Text.{Text}
use package_firewall.Common.Dict.{lookup, insert, delete}

-- `fillGroup`; `next` is an address that no call has yet, and `closed` are the calls whose channel
-- `done` is closed
pub record FillGroup : Type 0 where
  pub calls : List (Text × ℕ)
  pub next : ℕ
  pub closed : List ℕ

-- `begin`: the call, and whether the caller leads it
unfoldable pub begin : Text → FillGroup → (ℕ × Bool) × FillGroup
unfolding lookup insert
begin key g = elim (lookup key g.calls) [
  | some call ↦ ((call, false), g)
  | none ↦ (
    (g.next, true),
    record { calls = insert key g.next g.calls; next = suc g.next; closed = g.closed },
  )
]

abbrev pub is_call : Option ℕ → ℕ → Bool
is_call none call = false
is_call (some c) call = c == call

-- `finish`
unfoldable pub finish : Text → ℕ → FillGroup → FillGroup
unfolding lookup delete
finish key call g =
    if is_call (lookup key g.calls) call
    then record { calls = delete key g.calls; next = g.next; closed = call ∷ g.closed }
    else g
