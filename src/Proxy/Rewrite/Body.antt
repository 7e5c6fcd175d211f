-- ===== src/Proxy/Rewrite/Body.antt =====
-- The body as it streams, and the body in one piece.
use mathlib.Core.List.{Memᴰ}
use mathlib.Core.List.{append_assoc, append-nil}
use package_firewall.Common.{
  ℕ, suc, ◌-◌, ◌≤◌, max, ◌≡◌, refl, sym, ◌∙◌, ap, inl, inr, true, false, Option, none, some, List,
  [], ◌∷◌, ◌++◌, map, arith, Bool-cases,
}
use package_firewall.Common.Text.{Text, codes, text_eq, has_prefix}
use package_firewall.Common.Lists.{length, take, drop, length-drop}
use package_firewall.Server.Handle.{RouteConfig}
use package_firewall.Proxy.Rewrite.{
  Replacement, shift, index, slice, write_matches, write_rewritten, keep_of, more, last, ended,
  rewrite_from, rewrite_stream, rewrite_rules,
}
use package_firewall.Proxy.Rewrite.Scan.{rewritten, occurs, is_apart, Apart}
use package_firewall.Proxy.Rewrite.Settled.{rewritten-none, rewritten-held}
use package_firewall.Proxy.Rewrite.Slots.{slots}
use package_firewall.Proxy.Rewrite.Stream.{drop-drop, take_all, Wrote, write_matches-Wrote}

keep_of-le :
    (rules : List Replacement) (q : Replacement) → Memᴰ q rules → length q.old ≤ suc (keep_of rules)
unfolding keep_of
keep_of-le (r ∷ rules) q (Memᴰ.head e) = rw e (omega arith)
keep_of-le (r ∷ rules) q (Memᴰ.tail m) = omega (arith, keep_of-le rules q m)
keep_of-le [] q m = elim m [ ]

shift_zero : (o : Option ℕ) → shift 0 o ≡ o
shift_zero none = refl
shift_zero (some j) = ap some (omega arith)

initial :
    (data_text : Text) (rules : List Replacement)
    → map (λ rule. (rule, index data_text rule.old)) rules ≡ slots 0 data_text rules
initial data_text [] = refl
initial data_text (r ∷ rules) =
    rw (initial data_text rules, shift_zero (index data_text r.old)) refl

module _ (rules : List Replacement) (apart : Apart rules) where
  first_round :
      (data_text : Text)
      → Wrote rules data_text 0 (
          write_matches
            (suc (length data_text))
            data_text
            0
            (map (λ rule. (rule, index data_text rule.old)) rules))
  first_round data_text = rw (initial data_text rules) (
      write_matches-Wrote rules apart (suc (length data_text)) data_text 0 (omega arith)
        (omega arith))

  -- The rest of the text from the place that the loop has reached.
  final_lem :
      (data_text : Text) (result : Text × ℕ)
      → Wrote rules data_text 0 result
      → result.0 ++ slice data_text result.1 (length data_text) ≡ rewritten rules data_text
  final_lem data_text result wrote =
      let rest = drop result.1 data_text in
      let whole : slice data_text result.1 (length data_text) ≡ rest =
        ap (λ (k : ℕ). take k rest) (sym (length-drop result.1 data_text)) ∙ take_all rest in
      ap (λ (x : Text). result.0 ++ x)
        (whole
          ∙ sym (rewritten-none rules apart rest wrote.rest_plain)
          ∙ ap (rewritten rules) (sym (append-nil rest)))
      ∙ sym (wrote.written [])
      ∙ ap (rewritten rules) (append-nil data_text)

  held_lem :
      (data_text t : Text) (result : Text × ℕ)
      → Wrote rules data_text 0 result
      → rewritten rules (data_text ++ t)
        ≡ (result.0 ++ slice data_text result.1 (max result.1 (length data_text - keep_of rules)))
          ++ rewritten rules (drop (max result.1 (length data_text - keep_of rules)) data_text ++ t)
  held_lem data_text t result wrote =
      let rest = drop result.1 data_text in
      let end = max result.1 (length data_text - keep_of rules) in
      let settled : length rest - keep_of rules ≡ end - result.1 =
        omega (arith, length-drop result.1 data_text, wrote.within) in
      let reached : drop (end - result.1) rest ≡ drop end data_text =
        drop-drop (end - result.1) result.1 data_text
        ∙ ap (λ (k : ℕ). drop k data_text) (omega arith) in
      wrote.written t
      ∙ ap (λ (x : Text). result.0 ++ x)
          (rewritten-held rules apart (keep_of rules) (keep_of-le rules) rest t wrote.rest_plain
            ∙ ap (λ (k : ℕ). take k rest ++ rewritten rules (drop k rest ++ t)) settled
            ∙ ap (λ (x : Text). take (end - result.1) rest ++ rewritten rules (x ++ t)) reached)
      ∙ sym (append_assoc result.0 (take (end - result.1) rest) _)

  write_rewritten-final :
      (keep : ℕ) (data_text : Text)
      → (write_rewritten data_text rules keep true).0 ≡ rewritten rules data_text
  unfolding write_rewritten
  write_rewritten-final keep data_text = final_lem data_text _ (first_round data_text)

  write_rewritten-held :
      (data_text t : Text)
      → rewritten rules (data_text ++ t)
        ≡ (write_rewritten data_text rules (keep_of rules) false).0
          ++ rewritten rules
              (drop (write_rewritten data_text rules (keep_of rules) false).1 data_text ++ t)
  unfolding write_rewritten
  write_rewritten-held data_text t = held_lem data_text t _ (first_round data_text)

-- The chunks of a body in one piece.
abbrev pub concat : List Text → Text
concat [] = []
concat (chunk ∷ chunks) = chunk ++ concat chunks

module _ (rules : List Replacement) (apart : Apart rules) where
  rewrite_from-rewritten :
      (chunks : List Text) (end pending : Text)
      → rewrite_from rules pending (map more chunks ++ (last end ∷ []))
        ≡ (rewritten rules (pending ++ (concat chunks ++ end)), ended)
  unfolding rewrite_from
  rewrite_from-rewritten [] end pending =
      ap (λ (x : Text). (x, ended))
        (write_rewritten-final rules apart (keep_of rules) (pending ++ end))
  rewrite_from-rewritten (chunk ∷ chunks) end pending =
      let left =
        drop (write_rewritten (pending ++ chunk) rules (keep_of rules) false).1
          (pending ++ chunk) in
      let later = concat chunks ++ end in
      rw (rewrite_from-rewritten chunks end left) (
        ap (λ (x : Text). (x, ended))
          (sym (write_rewritten-held rules apart (pending ++ chunk) later)
            ∙ ap (rewritten rules) (
                append_assoc pending chunk later
                ∙ ap (λ (x : Text). pending ++ x) (sym (append_assoc chunk (concat chunks) end)))))

one_rule-Apart : (r : Replacement) → is_apart r r ≡ true → Apart (r ∷ [])
one_rule-Apart r h q p (Memᴰ.head e) (Memᴰ.head k) = rw (e, k) h
one_rule-Apart r h q p (Memᴰ.tail m) k = elim m [ ]
one_rule-Apart r h q p (Memᴰ.head e) (Memᴰ.tail m) = elim m [ ]

two_rules-Apart :
    (r s : Replacement)
    → is_apart r r ≡ true
    → is_apart r s ≡ true
    → is_apart s r ≡ true
    → is_apart s s ≡ true
    → Apart (r ∷ s ∷ [])
two_rules-Apart r s a b c d q p (Memᴰ.head e) (Memᴰ.head k) = rw (e, k) a
two_rules-Apart r s a b c d q p (Memᴰ.head e) (Memᴰ.tail (Memᴰ.head k)) = rw (e, k) b
two_rules-Apart r s a b c d q p (Memᴰ.tail (Memᴰ.head e)) (Memᴰ.head k) = rw (e, k) c
two_rules-Apart r s a b c d q p (Memᴰ.tail (Memᴰ.head e)) (Memᴰ.tail (Memᴰ.head k)) = rw (e, k) d
two_rules-Apart r s a b c d q p (Memᴰ.head e) (Memᴰ.tail (Memᴰ.tail m)) = elim m [ ]
two_rules-Apart r s a b c d q p (Memᴰ.tail (Memᴰ.head e)) (Memᴰ.tail (Memᴰ.tail m)) = elim m [ ]
two_rules-Apart r s a b c d q p (Memᴰ.tail (Memᴰ.tail m)) k = elim m [ ]

no_rules-Apart : Apart []
no_rules-Apart q r m k = elim m [ ]

npm_rule-apart :
    (n : Text)
    → is_apart
        (record { old = codes "https://registry.npmjs.org/"; new = n })
        (record { old = codes "https://registry.npmjs.org/"; new = n })
      ≡ true
unfolding is_apart occurs has_prefix
npm_rule-apart n = refl

pypi_rules-Apart :
    (n : Text)
    → Apart (
        record { old = codes "https://files.pythonhosted.org/"; new = n }
        ∷ record { old = codes "http://files.pythonhosted.org/"; new = n }
        ∷ [])
unfolding is_apart occurs has_prefix
pypi_rules-Apart n =
    two_rules-Apart (record { old = codes "https://files.pythonhosted.org/"; new = n })
      (record { old = codes "http://files.pythonhosted.org/"; new = n }) refl refl refl refl

rewrite_rules-Apart : (base_url : Text) (route : RouteConfig) → Apart (rewrite_rules base_url route)
unfolding rewrite_rules
rewrite_rules-Apart base_url route = elim (Bool-cases (text_eq route.ecosystem (codes "npm"))) [
  | inl npm ↦ rw npm (one_rule-Apart _ (npm_rule-apart _))
  | inr other ↦ elim (Bool-cases (text_eq route.ecosystem (codes "pypi"))) [
    | inl pypi ↦ rw (other, pypi) (pypi_rules-Apart _)
    | inr neither ↦ rw (other, neither) no_rules-Apart
  ]
]

-- However the body is cut into reads, the client gets the body with every text of the route's rules
-- replaced, in one scan from left to right, and the stream ends without an error.
pub rewrite_stream-rewritten :
    (base_url : Text) (route : RouteConfig) (chunks : List Text) (end : Text)
    → rewrite_stream (rewrite_rules base_url route) (map more chunks ++ (last end ∷ []))
      ≡ (rewritten (rewrite_rules base_url route) (concat chunks ++ end), ended)
unfolding rewrite_stream
rewrite_stream-rewritten base_url route chunks end =
    rewrite_from-rewritten (rewrite_rules base_url route) (rewrite_rules-Apart base_url route)
      chunks end []
