-- ===== src/Proxy/Rewrite/Stream.antt =====
-- The loop over the matches, and the scan of the body.
use mathlib.Core.List.{append_assoc}
use package_firewall.Common.{
  ℕ, zero, suc, ◌+◌, ◌-◌, ◌≤◌, ◌<◌, ◌≡◌, refl, sym, ◌∙◌, ap, inl, inr, false, none, some, List, [],
  ◌∷◌, ◌++◌, map, arith, Option-cases,
}
use package_firewall.Common.Text.{Text, is_empty}
use package_firewall.Common.Lists.{length, take, drop, length-drop}
use package_firewall.Proxy.Rewrite.{Replacement, Slot, pick_from, refresh, slice, write_matches}
use package_firewall.Proxy.Rewrite.Scan.{rewritten, earliest, Apart}
use package_firewall.Proxy.Rewrite.Matches.{is_apart-ApartBy, earliest-First}
use package_firewall.Proxy.Rewrite.Settled.{rewritten-earliest}
use package_firewall.Proxy.Rewrite.Slots.{slots, Full, pick_from-earliest, refresh-slots, shifted}

drop_empty : (n : ℕ) → drop {A = ℕ} n [] ≡ []
drop_empty zero = refl
drop_empty (suc n) = refl

pub drop-drop : (n m : ℕ) (s : Text) → drop n (drop m s) ≡ drop (m + n) s
drop-drop n zero s = ap (λ (k : ℕ). drop k s) (omega arith)
drop-drop n (suc m) [] = drop_empty n ∙ sym (drop_empty (suc m + n))
drop-drop n (suc m) (c ∷ s) =
    let step : suc (m + n) ≡ suc m + n = omega arith in
    drop-drop n m s ∙ ap (λ (k : ℕ). drop k (c ∷ s)) step

pub take_all : (s : Text) → take (length s) s ≡ s
take_all [] = refl
take_all (c ∷ s) = ap (λ (t : Text). c ∷ t) (take_all s)

write_matches-none :
    (fuel : ℕ) (data_text : Text) (start : ℕ) (next : List Slot)
    → pick_from none next ≡ none
    → write_matches (suc fuel) data_text start next ≡ ([], start)
unfolding write_matches
write_matches-none fuel data_text start next h = rw (h, write_matches) refl

write_matches-some :
    (fuel : ℕ) (data_text : Text) (start : ℕ) (next : List Slot) (r : Replacement) (at : ℕ)
    → pick_from none next ≡ some (r, at)
    → write_matches (suc fuel) data_text start next ≡ (
      slice data_text start at
          ++ (r.new
              ++ (write_matches fuel data_text
                  (at + length r.old)
                  (map (refresh data_text (at + length r.old)) next)).0),
      (write_matches fuel data_text
          (at + length r.old)
          (map (refresh data_text (at + length r.old)) next)).1,
    )
unfolding write_matches
write_matches-some fuel data_text start next r at h = rw (h, write_matches) refl

drop_on : (start n len : ℕ) (s : Text) → drop (n + len) (drop start s) ≡ drop (start + n + len) s
drop_on start n len s = drop-drop (n + len) start s ∙ ap (λ (k : ℕ). drop k s) (omega arith)

regroup :
    (start n : ℕ) (s a b c : Text)
    → take n s ++ (a ++ (b ++ c)) ≡ (take (start + n - start) s ++ (a ++ b)) ++ c
regroup start n s a b c = let e : start + n - start ≡ n = omega arith in rw e (simp append_assoc)

length_pos : (s : Text) → is_empty s ≡ false → 0 < length s
length_pos [] h = cc
length_pos (c ∷ s) h = omega arith

-- What a call of the loop has done: it wrote the rewritten text up to a place, from which on no rule
-- matches.
pub record Wrote (rules : List Replacement) (data_text : Text) (start : ℕ) (result : Text × ℕ)
    : Type 0 where
  pub on : start ≤ result.1
  pub within : result.1 ≤ length data_text
  pub rest_plain : earliest rules (drop result.1 data_text) ≡ none
  pub written :
      (t : Text)
      → rewritten rules (drop start data_text ++ t)
        ≡ result.0 ++ rewritten rules (drop result.1 data_text ++ t)

module _ (rules : List Replacement) (apart : Apart rules) where
  pub full : Full rules
  full q m = (is_apart-ApartBy q q (apart q q m m)).full

  write_matches_step :
      (data_text : Text) (start : ℕ) (r : Replacement) (n : ℕ) (rest : Text × ℕ)
      → start ≤ length data_text
      → earliest rules (drop start data_text) ≡ some (r, n)
      → Wrote rules data_text (start + n + length r.old) rest
      → Wrote rules data_text start (slice data_text start (start + n) ++ (r.new ++ rest.0), rest.1)
  write_matches_step data_text start r n rest inside found wrote =
      let first = earliest-First rules (drop start data_text) r n found in
      let moved = wrote.on in
      record {
        on = omega (arith, moved);
        within = wrote.within;
        rest_plain = wrote.rest_plain;
        written = λ t.
            rewritten-earliest rules apart (drop start data_text) t r n found
            ∙ ap (λ (x : Text). take n (drop start data_text) ++ (r.new ++ x))
                (ap (λ (d : Text). rewritten rules (d ++ t))
                    (drop_on start n (length r.old) data_text)
                  ∙ wrote.written t)
            ∙ regroup start n (drop start data_text) r.new rest.0
                (rewritten rules (drop rest.1 data_text ++ t));
      }

  pub write_matches-Wrote :
      (fuel : ℕ) (data_text : Text) (start : ℕ)
      → length data_text - start < fuel
      → start ≤ length data_text
      → Wrote rules data_text start
          (write_matches fuel data_text start (slots start (drop start data_text) rules))
  unfolding write_matches
  write_matches-Wrote zero data_text start enough inside = absurd (omega (arith, enough))
  write_matches-Wrote (suc fuel) data_text start enough inside =
      elim (Option-cases (earliest rules (drop start data_text))) [
        | inl plain ↦
            let none_picked : pick_from none (slots start (drop start data_text) rules) ≡ none =
              pick_from-earliest start (drop start data_text) rules full
              ∙ ap (shifted start) plain in
            rw (write_matches-none fuel data_text start _ none_picked) (record {
              on = omega arith;
              within = inside;
              rest_plain = plain;
              written = λ t. refl;
            })
        | inr ((r, n), found) ↦
            let picked : pick_from none (slots start (drop start data_text) rules)
                ≡ some (r, start + n) =
              pick_from-earliest start (drop start data_text) rules full
              ∙ ap (shifted start) found in
            rw (write_matches-some fuel data_text start _ r (start + n) picked) (
              write_matches_step data_text start r n _ inside found (
                let first = earliest-First rules (drop start data_text) r n found in
                let next = start + n + length r.old in
                let long = length_pos r.old (full r first.listed) in
                let fits : next ≤ length data_text =
                  omega (arith, first.fits, length-drop start data_text, inside) in
                let on : start ≤ next = omega arith in
                let split : drop next data_text ≡ drop (next - start) (drop start data_text) =
                  ap (λ (k : ℕ). drop k data_text) (omega arith)
                  ∙ sym (drop-drop (next - start) start data_text) in
                rw (refresh-slots data_text start next rules full on split) (
                  write_matches-Wrote fuel data_text next (omega (arith, enough, long, fits))
                    fits)))
      ]
