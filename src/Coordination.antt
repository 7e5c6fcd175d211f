-- ===== src/Coordination.antt =====
-- internal/coordination/dynamodb.go: leases and cooldowns as conditional writes to a DynamoDB table.
-- DynamoDB is the record `Client`; its documented behaviour is `IsFaithful`: a write whose reply is
-- an error may or may not have happened, and no write touches another item. The expressions that
-- the program sends are the data types `Condition` and `Update`. A time is a number of nanoseconds.
pub mod Exclusion
pub mod Leases
pub mod Monotone
use package_firewall.Common.{
  ℕ, ◌+◌, ◌*◌, ◌/◌, ◌≡◌, ◌≢◌, ◌⊎◌, Bool, true, false, not, ◌&&◌, ◌||◌, Option, none, some, List, [],
  ◌∷◌, ◌++◌, ltb, leb, if◌then◌else◌,
}
use package_firewall.Common.Text.{
  Text, codes, text_eq, is_empty, is_blank, trim_space, contains_any,
}

-- The attributes that the program reads and writes. An item that does not exist has none.
pub record Item : Type 0 where
  pub owner : Option Text
  pub expires_at : Option ℕ

abbrev pub absent_item : Item
absent_item = record { owner = none; expires_at = none }

pub data Condition : Type 0 where
  owner_not_exists expires_at_not_exists : Condition
  owner_is : Text → Condition
  expires_at_le expires_at_lt expires_at_ge : ℕ → Condition
  or_else and_also : Condition → Condition → Condition

pub data Update : Type 0 where
  set_both : Text → ℕ → Update
  set_expires_at : ℕ → Update

abbrev pub is_none {ℓ} : {A : Type ℓ} → Option A → Bool
is_none none = true
is_none (some _) = false

abbrev pub satisfies {ℓ} : {A : Type ℓ} → (A → Bool) → Option A → Bool
satisfies p none = false
satisfies p (some a) = p a

-- A comparison with an attribute that is not there is false.
unfoldable pub holds : Condition → Item → Bool
holds owner_not_exists item = is_none item.owner
holds expires_at_not_exists item = is_none item.expires_at
holds (owner_is o) item = satisfies (text_eq o) item.owner
holds (expires_at_le n) item = satisfies (λ e. leb e n) item.expires_at
holds (expires_at_lt n) item = satisfies (λ e. ltb e n) item.expires_at
holds (expires_at_ge n) item = satisfies (leb n) item.expires_at
holds (or_else c d) item = holds c item || holds d item
holds (and_also c d) item = holds c item && holds d item

unfoldable pub applied : Update → Item → Item
applied (set_both o n) item = record { owner = some o; expires_at = some n }
applied (set_expires_at n) item = record item { expires_at = some n }

pub data Reply : Type 0 where
  done conditional_failure : Reply
  failure : Text → Reply

-- The client, on a state `St` of the service; `item` is what the table holds under a key.
pub record Client (St : Type 0) : Type 0 where
  pub item : Text → St → Item
  pub get_item : Text → St → Option Item
  pub update_item : Text → Condition → Update → St → Reply × St
  pub delete_item : Text → Condition → St → Reply × St

-- What a conditional write does to its item.
pub data Wrote (c : Condition) (write : Item → Item) (before after : Item) (reply : Reply)
    : Type 0 where
  wrote :
      reply ≡ done → holds c before ≡ true → after ≡ write before → Wrote c write before after reply
  refused :
      reply ≡ conditional_failure
      → holds c before ≡ false
      → after ≡ before
      → Wrote c write before after reply
  unwritten : (e : Text) → reply ≡ failure e → after ≡ before → Wrote c write before after reply
  unreported :
      (e : Text)
      → reply ≡ failure e
      → holds c before ≡ true
      → after ≡ write before
      → Wrote c write before after reply

pub record IsFaithful {St : Type 0} (client : Client St) : Type 0 where
  pub got : (k : Text) (st : St) (i : Item) → client.get_item k st ≡ some i → i ≡ client.item k st
  pub updated :
      (k : Text) (c : Condition) (u : Update) (st : St)
      → Wrote c
          (applied u)
          (client.item k st)
          (client.item k (client.update_item k c u st).1)
          (client.update_item k c u st).0
  pub update_elsewhere :
      (j k : Text) (c : Condition) (u : Update) (st : St)
      → j ≢ k
      → client.item j (client.update_item k c u st).1 ≡ client.item j st
  pub deleted :
      (k : Text) (c : Condition) (st : St)
      → Wrote c
          (λ _. absent_item)
          (client.item k st)
          (client.item k (client.delete_item k c st).1)
          (client.delete_item k c st).0
  pub delete_elsewhere :
      (j k : Text) (c : Condition) (st : St)
      → j ≢ k
      → client.item j (client.delete_item k c st).1 ≡ client.item j st

-- `dynamoLease`
pub record Lease : Type 0 where
  pub key : Text
  pub owner : Text

pub data Acquisition : Type 0 where
  acquired : Lease → Acquisition
  not_acquired : Acquisition
  acquire_failed : Text → Acquisition

pub data LeaseResult : Type 0 where
  kept lease_lost : LeaseResult
  lease_failed : Text → LeaseResult

-- `strings.Trim(s, "#")`, in its two halves
unfoldable pub trim_left_hash : Text → Text
trim_left_hash [] = []
trim_left_hash (c ∷ s) = if contains_any (c ∷ []) (codes "#") then trim_left_hash s else c ∷ s

unfoldable pub trim_right_hash : Text → Text
trim_right_hash [] = []
trim_right_hash (c ∷ s) =
    let rest = trim_right_hash s in
    if is_empty rest && contains_any (c ∷ []) (codes "#") then [] else c ∷ rest

-- `NewDynamoDB`: the key prefix, or `none` for an error.
unfoldable pub new_dynamo_db : Bool → Text → Text → Option Text
unfolding trim_left_hash trim_right_hash trim_space is_blank
new_dynamo_db has_client table key_prefix =
    let prefix = trim_right_hash (trim_left_hash (trim_space key_prefix)) in
    if not has_client || is_blank table
    then none
    else some (if is_empty prefix then codes "package-firewall" else prefix)

-- `Time.Unix`
unfoldable pub unix : ℕ → ℕ
unix t = t / 1000000000

-- `digest` is the hexadecimal SHA-256 of a text; `prefix` is the coordinator's key prefix.
module _ (digest : Text → Text) (prefix : Text) where
  unfoldable pub item_key : Text → Text → Text
  item_key kind resource = prefix ++ (codes "#" ++ (kind ++ (codes "#" ++ digest resource)))

  abbrev pub lease_key : Text → Text
  lease_key = item_key (codes "lease")

  abbrev pub cooldown_key : Text → Text
  cooldown_key = item_key (codes "cooldown")

unfoldable pub acquisition : Lease → Reply → Acquisition
acquisition lease done = acquired lease
acquisition lease conditional_failure = not_acquired
acquisition lease (failure e) = acquire_failed (codes "acquire DynamoDB coordination lease: " ++ e)

unfoldable pub lease_result : Text → Reply → LeaseResult
lease_result what done = kept
lease_result what conditional_failure = lease_lost
lease_result what (failure e) = lease_failed (what ++ e)

-- The error of `SetCooldown`, which a refused write is not.
unfoldable pub cooldown_result : Reply → Option Text
cooldown_result done = none
cooldown_result conditional_failure = none
cooldown_result (failure e) = some (codes "set DynamoDB upstream cooldown: " ++ e)

-- `Cooldown` after its read; `none` is an error, and 0 the zero time.
unfoldable pub cooldown_at : ℕ → Option Item → Option ℕ
cooldown_at now none = none
cooldown_at now (some i) = elim i.expires_at [
  | none ↦ some 0
  | some seconds ↦ some (if ltb now (seconds * 1000000000) then seconds * 1000000000 else 0)
]

abbrev pub renew_error : Text
renew_error = codes "renew DynamoDB coordination lease: "

abbrev pub release_error : Text
release_error = codes "release DynamoDB coordination lease: "

module _ (digest : Text → Text) (prefix : Text) {St : Type 0} (client : Client St) where
  -- `TryAcquire` once it has a random owner.
  unfoldable pub try_acquire : Text → ℕ → Text → ℕ → St → Acquisition × St
  unfolding unix acquisition item_key
  try_acquire owner now resource duration st =
      let key = lease_key digest prefix resource in
      let (reply, st') =
        client.update_item key (or_else owner_not_exists (expires_at_le (unix now)))
          (set_both owner (unix (now + duration))) st in
      (acquisition (record { key = key; owner = owner }) reply, st')

  -- `Renew`
  unfoldable pub renew : Lease → ℕ → ℕ → St → LeaseResult × St
  unfolding unix lease_result
  renew lease now duration st =
      let (reply, st') =
        client.update_item lease.key (and_also (owner_is lease.owner) (expires_at_ge (unix now)))
          (set_expires_at (unix (now + duration))) st in
      (lease_result renew_error reply, st')

  -- `Release`
  unfoldable pub release : Lease → St → LeaseResult × St
  unfolding lease_result
  release lease st =
      let (reply, st') = client.delete_item lease.key (owner_is lease.owner) st in
      (lease_result release_error reply, st')

  -- `SetCooldown`
  unfoldable pub set_cooldown : Text → ℕ → St → Option Text × St
  unfolding cooldown_result unix item_key
  set_cooldown route until st =
      let (reply, st') =
        client.update_item (cooldown_key digest prefix route)
          (or_else expires_at_not_exists (expires_at_lt (unix until))) (set_expires_at (unix until))
          st in
      (cooldown_result reply, st')

  -- `Cooldown`
  unfoldable pub cooldown : Text → ℕ → St → Option ℕ
  unfolding cooldown_at item_key
  cooldown route now st = cooldown_at now (client.get_item (cooldown_key digest prefix route) st)
