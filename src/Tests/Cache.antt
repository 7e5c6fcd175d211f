-- ===== src/Tests/Cache.antt =====
-- The cache: internal/cache/cache_test.go's kind of scenario.
use package_firewall.Common.{ℕ, ◌+◌, ◌≡◌, refl, ◌&&◌, none, some, List, [], ◌∷◌, ltb, if◌then◌else◌}
use package_firewall.Common.Text.{codes, text_eq}
use package_firewall.Common.Dict.{lookup, insert, delete}
use package_firewall.Cache.{
  Cache, new_with_max_entries, get, set, evict, expired, delete_key, remove,
}
use package_firewall.Cache.Validity.{
  IsValid, new-IsValid, Call, reads, writes, deletes, purges, calls, calls-IsValid,
}
use package_firewall.Cache.Laws.{get-set, order-set, order_after}

abbrev two : Cache ℕ
two = new_with_max_entries 2

abbrev some_calls : List (Call ℕ)
some_calls =
    writes 5 (codes "a") 1 10
    ∷ writes 6 (codes "b") 2 0
    ∷ reads 20 (codes "a")
    ∷ writes 21 (codes "c") 3 0
    ∷ writes 22 (codes "d") 4 0
    ∷ []

abbrev full : Cache ℕ
full = calls some_calls two

full-IsValid : IsValid full
full-IsValid = calls-IsValid some_calls two (new-IsValid 2)

full_order : full.order ≡ codes "c" ∷ codes "d" ∷ []
unfolding calls new_with_max_entries get set lookup evict insert text_eq expired delete_key delete
    remove
full_order = refl

calls-IsValid_example : IsValid (calls (deletes (codes "c") ∷ purges ∷ []) full)
calls-IsValid_example = calls-IsValid (deletes (codes "c") ∷ purges ∷ []) full full-IsValid

get-set_example :
    (get 40 (codes "e") (set 30 (codes "e") 9 5 full)).0
    ≡ (if ltb 0 5 && ltb (30 + 5) 40 then none else some 9)
get-set_example = get-set 30 40 (codes "e") 9 5 full full-IsValid

order-set_example :
    (set 30 (codes "e") 9 5 full).order ≡ order_after full.max_entries (codes "e") full.order
order-set_example = order-set 30 (codes "e") 9 5 full full-IsValid
