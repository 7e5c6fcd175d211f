-- ===== src/Tests/Coordination.antt =====
-- A table in memory, which behaves as DynamoDB documents, and leases and cooldowns on it.
use package_firewall.Common.{
  ℕ, ◌+◌, ◌*◌, ◌≤◌, ◌<◌, ◌≡◌, refl, ◌≢◌, inl, inr, true, false, Option, none, some, List, [], ◌∷◌,
  if◌then◌else◌, arith, Bool-cases,
}
use package_firewall.Common.Lists.{All}
use package_firewall.Common.Text.{Text, codes, text_eq, text_eq_iff, text_eq_refl}
use package_firewall.Common.Dict.{lookup, insert, delete, lookup-insert, lookup-delete}
use package_firewall.Coordination.{
  Item, absent_item, Condition, Update, holds, applied, done, conditional_failure, Client, Wrote,
  wrote, refused, IsFaithful, Lease, acquired, not_acquired, kept, lease_lost, unix, lease_key,
  item_key, try_acquire, renew, release, set_cooldown, cooldown,
}
use package_firewall.Coordination.Exclusion.{
  Expected, Call, acquire_call, renew_call, release_call, cooldown_call, run, step,
}
use package_firewall.Coordination.Leases.{
  try_acquire-exclusive, renew-lost, renew-acquired, try_acquire-release,
}
use package_firewall.Coordination.Monotone.{cooldown-set_cooldown}

abbrev Table : Type 0
Table = List (Text × Item)

abbrev or_absent : Option Item → Item
or_absent none = absent_item
or_absent (some i) = i

abbrev table_item : Text → Table → Item
table_item k m = or_absent (lookup k m)

abbrev memory : Client Table
memory = record {
  item = table_item;
  get_item = λ k m. some (table_item k m);
  update_item = λ k c u m.
      if holds c (table_item k m)
      then (done, insert k (applied u (table_item k m)) m)
      else (conditional_failure, m);
  delete_item =
      λ k c m. if holds c (table_item k m) then (done, delete k m) else (conditional_failure, m);
}

text_ne : (j k : Text) → j ≢ k → text_eq k j ≡ false
text_ne j k n = ground (arith, text_eq_iff k j)

memory_updated :
    (k : Text) (c : Condition) (u : Update) (m : Table)
    → Wrote c
        (applied u)
        (table_item k m)
        (table_item k (memory.update_item k c u m).1)
        (memory.update_item k c u m).0
memory_updated k c u m = elim (Bool-cases (holds c (table_item k m))) [
  | inl ok ↦
      rw ok (wrote refl ok (rw (lookup-insert k k (applied u (table_item k m)) m, text_eq_refl k)))
  | inr ko ↦ rw ko (refused refl ko refl)
]

memory_deleted :
    (k : Text) (c : Condition) (m : Table)
    → Wrote c
        (λ _. absent_item)
        (table_item k m)
        (table_item k (memory.delete_item k c m).1)
        (memory.delete_item k c m).0
memory_deleted k c m = elim (Bool-cases (holds c (table_item k m))) [
  | inl ok ↦ rw ok (wrote refl ok (rw (lookup-delete k k m, text_eq_refl k)))
  | inr ko ↦ rw ko (refused refl ko refl)
]

memory_update_elsewhere :
    (j k : Text) (c : Condition) (u : Update) (m : Table)
    → j ≢ k
    → table_item j (memory.update_item k c u m).1 ≡ table_item j m
memory_update_elsewhere j k c u m n = elim (Bool-cases (holds c (table_item k m))) [
  | inl ok ↦ rw (ok, lookup-insert k j (applied u (table_item k m)) m, text_ne j k n)
  | inr ko ↦ rw ko
]

memory_delete_elsewhere :
    (j k : Text) (c : Condition) (m : Table)
    → j ≢ k
    → table_item j (memory.delete_item k c m).1 ≡ table_item j m
memory_delete_elsewhere j k c m n = elim (Bool-cases (holds c (table_item k m))) [
  | inl ok ↦ rw (ok, lookup-delete k j m, text_ne j k n)
  | inr ko ↦ rw ko
]

memory-IsFaithful : IsFaithful memory
memory-IsFaithful = record {
  got = λ k m i h. cc;
  updated = memory_updated;
  update_elsewhere = memory_update_elsewhere;
  deleted = memory_deleted;
  delete_elsewhere = memory_delete_elsewhere;
}

abbrev digest : Text → Text
digest s = s

abbrev firewall : Text
firewall = codes "fw"

abbrev artifact : Text
artifact = codes "artifact:k"

abbrev ours : Text
ours = codes "o1"

abbrev theirs : Text
theirs = codes "o2"

abbrev our_lease : Lease
our_lease = record { key = lease_key digest firewall artifact; owner = ours }

abbrev their_lease : Lease
their_lease = record { key = lease_key digest firewall artifact; owner = theirs }

-- 30 seconds, and a moment 5 seconds after the start
abbrev half_minute : ℕ
half_minute = 30000000000

abbrev start : ℕ
start = 1000000000000

abbrev soon : ℕ
soon = 1005000000000

-- What happens while we hold the lease.
abbrev meanwhile : List Call
meanwhile =
    acquire_call theirs soon artifact half_minute
    ∷ renew_call our_lease soon half_minute
    ∷ release_call their_lease
    ∷ []

abbrev empty_table : Table
empty_table = []

our_acquisition :
    (try_acquire digest firewall memory ours start artifact half_minute empty_table).0
    ≡ acquired our_lease
unfolding try_acquire holds lookup insert text_eq applied item_key
our_acquisition = refl

differ : text_eq theirs ours ≡ true → ⊥
unfolding text_eq
differ h = cc

theirs_ne : theirs ≢ ours
theirs_ne h = let e : text_eq theirs ours ≡ true = (text_eq_iff theirs ours).1 h in differ e

before_end : unix soon < unix (start + half_minute)
unfolding unix
before_end = omega arith

renewed_later : unix (start + half_minute) ≤ unix (soon + half_minute)
unfolding unix
renewed_later = omega arith

expected : All (Expected ours (unix (start + half_minute))) meanwhile
expected = (before_end, (inr renewed_later, (theirs_ne, tt)))

try_acquire-exclusive_example :
    (try_acquire digest firewall memory theirs soon artifact half_minute (
      run digest firewall memory meanwhile
        (try_acquire digest firewall memory ours start artifact half_minute empty_table).1)).0
    ≢ acquired their_lease
try_acquire-exclusive_example =
    try_acquire-exclusive memory memory-IsFaithful digest firewall artifact ours start half_minute
      empty_table our_lease our_acquisition meanwhile expected theirs soon half_minute their_lease
      before_end

renew-lost_example :
    ((renew digest firewall memory their_lease soon half_minute (
        run digest firewall memory meanwhile
          (try_acquire digest firewall memory ours start artifact half_minute empty_table).1)).0
      ≢ kept)
    × ((release digest firewall memory their_lease (
          run digest firewall memory meanwhile
            (try_acquire digest firewall memory ours start artifact half_minute empty_table).1)).0
        ≢ kept)
renew-lost_example =
    renew-lost memory memory-IsFaithful digest firewall artifact ours start half_minute empty_table
      our_lease our_acquisition meanwhile expected their_lease soon half_minute refl theirs_ne

renew-acquired_example :
    ((renew digest firewall memory our_lease soon half_minute (
        run digest firewall memory meanwhile
          (try_acquire digest firewall memory ours start artifact half_minute empty_table).1)).0
      ≢ lease_lost)
    × ((release digest firewall memory our_lease (
          run digest firewall memory meanwhile
            (try_acquire digest firewall memory ours start artifact half_minute empty_table).1)).0
        ≢ lease_lost)
renew-acquired_example =
    renew-acquired memory memory-IsFaithful digest firewall artifact ours start half_minute
      empty_table our_lease our_acquisition meanwhile expected soon half_minute
      (omega (arith, before_end))

abbrev our_table : Table
our_table = (try_acquire digest firewall memory ours start artifact half_minute empty_table).1

our_release : (release digest firewall memory our_lease our_table).0 ≡ kept
unfolding try_acquire release holds lookup insert text_eq applied item_key
our_release = refl

try_acquire-release_example :
    (try_acquire digest firewall memory theirs soon artifact half_minute
      (release digest firewall memory our_lease our_table).1).0
    ≢ not_acquired
try_acquire-release_example =
    try_acquire-release memory memory-IsFaithful digest firewall artifact our_lease theirs soon
      half_minute our_table refl our_release

abbrev npm : Text
npm = codes "npm"

abbrev shorter : List Call
shorter = cooldown_call npm start ∷ release_call our_lease ∷ []

first_cooldown : (set_cooldown digest firewall memory npm soon empty_table).0 ≡ none
unfolding set_cooldown holds lookup insert text_eq applied item_key
first_cooldown = refl

remaining :
    cooldown digest firewall memory npm start (
      run digest firewall memory shorter
        (set_cooldown digest firewall memory npm soon empty_table).1)
    ≡ some soon
unfolding set_cooldown release holds lookup insert delete text_eq applied item_key cooldown run step
    unix
remaining = refl

in_force : start < unix soon * 1000000000
unfolding unix
in_force = omega arith

cooldown-set_cooldown_example : unix soon * 1000000000 ≤ soon
cooldown-set_cooldown_example =
    cooldown-set_cooldown digest firewall memory memory-IsFaithful npm soon start soon shorter
      empty_table first_cooldown (tt, ((artifact, refl), tt)) in_force remaining
