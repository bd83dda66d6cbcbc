-- ===== src/Mempool/Skipping.antt =====
-- `shouldSkip` of src/mempool/mempool.ts, and the calls out of the process that it awaits. While a
-- call is awaited other tasks run, so each such call is a function that also gives the mempool as it
-- is found afterwards.
pub mod Cases
pub mod Config
pub mod Taken
pub mod Pools
use pimlico_alto_smart_accou.Common.{
  ℕ, ◌+◌, ◌-◌, ◌≡◌, Bool, true, false, ◌&&◌, ◌||◌, not, Option, none, some, List, [], ◌∷◌, map,
  ◌==◌, leb, ltb, any, filter, if◌then◌else◌, get_or_else, Dict, get?, put,
}
use pimlico_alto_smart_accou.UserOp.{
  UserOperation, v06, v07, sender, nonce, paymaster_of, factory_of, get_nonce_key_and_value,
}
use pimlico_alto_smart_accou.UserOp.Hashing.{Encoding}
use pimlico_alto_smart_accou.Store
use pimlico_alto_smart_accou.Store.{UserOperationInfo, ReferencedCodeHashes}
use pimlico_alto_smart_accou.Reputation.{
  ReputationStatus, ok, throttled, banned, Error, Outcome, returned, thrown,
}
use pimlico_alto_smart_accou.Reputation.Interface.{AnyReputationManager, any_get_status}
use pimlico_alto_smart_accou.Mempool.{Mempool, KnownEntities, op_of, member}

-- The keys of `storageMap` after `getAddress`, and `returnInfo.prefund`.
pub record ValidationResult : Type 0 where
  pub storage_addresses : List ℕ
  pub prefund : ℕ

-- The answers from outside; `none` is an exception.
pub record Outside : Type 0 where
  pub viem : Encoding
  pub get_nonce : ℕ → ℕ → ℕ → Mempool → Option ℕ × Mempool
  pub validate_user_operation :
      UserOperation
      → List UserOperation
      → ℕ
      → Option ReferencedCodeHashes
      → Mempool
      → Option ValidationResult × Mempool
  pub balance_of : ℕ → ℕ → Mempool → Option ℕ × Mempool

-- What `process` carries from one operation to the next.
pub record Bundle : Type 0 where
  pub paymaster_deposit : Dict ℕ
  pub staked_entity_count : Dict ℕ
  pub known_entities : KnownEntities
  pub senders : List ℕ

pub data Verdict : Type 0 where
  skip take : Verdict
  failed : Verdict

-- A verdict, with the bundle and the mempool that it leaves. `failed` is an exception that is not
-- caught: it ends `process`.
abbrev pub Step : Type 0
Step = Verdict × Bundle × Mempool

-- Insertion into a list in the order of nonce values, in front of equal ones.
abbrev pub value_of : UserOperation → ℕ
value_of op = (get_nonce_key_and_value (nonce op)).1

unfoldable pub insert_by_value : UserOperation → List UserOperation → List UserOperation
insert_by_value op [] = op ∷ []
insert_by_value op (x ∷ xs) =
    if leb (value_of op) (value_of x) then op ∷ x ∷ xs else x ∷ insert_by_value op xs

-- `sort` is stable, and its comparison here is a total order of the values, so any such sort gives
-- this list.
unfoldable pub sort_by_value : List UserOperation → List UserOperation
unfolding insert_by_value
sort_by_value [] = []
sort_by_value (x ∷ xs) = insert_by_value x (sort_by_value xs)

-- Whether `other` has to run before an operation with this sender, key and value.
abbrev pub runs_before : ℕ → ℕ → ℕ → ℕ → UserOperation → Bool
runs_before a key current value other =
    sender other == a
    && (get_nonce_key_and_value (nonce other)).0 == key
    && leb current (value_of other)
    && ltb (value_of other) value

-- The operations that `getQueuedUserOperations` finds, once it knows the current value.
unfoldable pub queued_before : Mempool → UserOperation → ℕ → List UserOperation
unfolding sort_by_value
queued_before m op current = sort_by_value (
    filter (runs_before (sender op) (get_nonce_key_and_value (nonce op)).0 current (value_of op))
      (map op_of m.store.outstanding))

-- A given value of 0 counts as not given.
abbrev given : Option ℕ → Bool
given none = false
given (some n) = not (n == 0)

unfoldable pub get_queued_user_operations :
    Outside → Mempool → UserOperation → ℕ → Option ℕ → Option (List UserOperation) × Mempool
get_queued_user_operations out m op entry_point current =
    if given current
    then (some (queued_before m op (get_or_else current 0)), m)
    else (let (answer, m') =
          out.get_nonce entry_point (sender op) (get_nonce_key_and_value (nonce op)).0 m in
        elim answer [
          | none ↦ (none, m')
          | some n ↦ (some (queued_before m' op (get_nonce_key_and_value n).1), m')
        ])

-- The statuses of the paymaster and of the factory.
unfoldable pub entity_statuses :
    Encoding → UserOperationInfo → Mempool → Outcome (ReputationStatus × ReputationStatus) × Mempool
entity_statuses viem info m =
    let (p, r) =
      any_get_status info.entry_point (paymaster_of viem.bytes.get_address (op_of info))
        m.reputation in
    elim p [
      | thrown e ↦ (thrown e, record m { reputation = r })
      | returned p_status ↦
          let (f, r') =
            any_get_status info.entry_point (factory_of viem.bytes.get_address (op_of info)) r in
          elim f [
            | thrown e ↦ (thrown e, record m { reputation = r' })
            | returned f_status ↦ (returned (p_status, f_status), record m { reputation = r' })
          ]
    ]

abbrev pub is_banned_status : ReputationStatus → Bool
is_banned_status banned = true
is_banned_status _ = false

abbrev pub is_throttled_status : ReputationStatus → Bool
is_throttled_status throttled = true
is_throttled_status _ = false

abbrev pub count_in : Bundle → ℕ → ℕ
count_in b a = get_or_else (get? b.staked_entity_count a) 0

-- `stakedEntityCount[a] >= limit`, which is false where the count is `undefined`.
abbrev pub reaches : Option ℕ → ℕ → Bool
reaches none limit = false
reaches (some n) limit = leb limit n

-- A throttled entity that has its share of the bundle.
abbrev pub has_its_share : ReputationStatus → Option ℕ → Bundle → Mempool → Bool
has_its_share status none b m = false
has_its_share status (some a) b m =
    is_throttled_status status
    && reaches (get? b.staked_entity_count a) m.throttled_entity_bundle_count

-- The second validation, with the operations that run before; version 0.6 has none.
unfoldable pub revalidate :
    Outside → UserOperationInfo → UserOperation → Mempool → Option ValidationResult × Mempool
revalidate out info (v06 op) m =
    out.validate_user_operation (v06 op) [] info.entry_point info.referenced_contracts m
revalidate out info (v07 op) m =
    let (queued, m') = get_queued_user_operations out m (v07 op) info.entry_point none in
    elim queued [
      | none ↦ (none, m')
      | some ops ↦
          out.validate_user_operation (v07 op) ops info.entry_point info.referenced_contracts m'
    ]

-- A storage address that belongs to another sender in the mempool.
abbrev pub touches_known_sender : UserOperation → KnownEntities → List ℕ → Bool
touches_known_sender op known [] = false
touches_known_sender op known (a ∷ rest) =
    (not (a == sender op) && member a known.senders) || touches_known_sender op known rest

abbrev pub count_up : Option ℕ → Dict ℕ → Dict ℕ
count_up none counts = counts
count_up (some a) counts = put counts a (get_or_else (get? counts a) 0 + 1)

-- The end of `shouldSkip`: the factory and the sender are noted.
abbrev pub accept : Encoding → UserOperation → Bundle → Mempool → Step
accept viem op b m = (
  take,
  record b {
    staked_entity_count = count_up (factory_of viem.bytes.get_address op) b.staked_entity_count;
    senders = sender op ∷ b.senders;
  },
  m,
)

-- The paymaster's deposit, known by now, has to cover the prefund.
unfoldable pub charge : Encoding → UserOperation → ℕ → ℕ → ℕ → Bundle → Mempool → Step
charge viem op paymaster deposit prefund b m =
    let b' = record b { paymaster_deposit = put b.paymaster_deposit paymaster deposit } in
    if ltb deposit prefund
    then (skip, b', m)
    else accept viem op
        (record b' {
          staked_entity_count = count_up (some paymaster) b.staked_entity_count;
          paymaster_deposit = put b'.paymaster_deposit paymaster (deposit - prefund);
        })
        m

-- The deposit is read from the chain the first time.
unfoldable pub charge_paymaster :
    Outside → UserOperationInfo → Option ℕ → ℕ → Bundle → Mempool → Step
charge_paymaster out info none prefund b m = accept out.viem (op_of info) b m
charge_paymaster out info (some paymaster) prefund b m = elim (get? b.paymaster_deposit paymaster) [
  | some deposit ↦ charge out.viem (op_of info) paymaster deposit prefund b m
  | none ↦
      let (answer, m') = out.balance_of info.entry_point paymaster m in
      elim answer [
        | none ↦ (failed, b, m')
        | some deposit ↦ charge out.viem (op_of info) paymaster deposit prefund b m'
      ]
]

-- From the second validation on.
unfoldable pub validate_and_charge : Outside → UserOperationInfo → Bundle → Mempool → Step
validate_and_charge out info b m =
    let (result, m') = revalidate out info (op_of info) m in
    elim result [
      | none ↦ (
        skip,
        b,
        record m' { store = Store.remove_outstanding m'.store info.user_operation_hash },
      )
      | some v ↦
          if touches_known_sender (op_of info) b.known_entities v.storage_addresses
          then (skip, b, m')
          else charge_paymaster out info (paymaster_of out.viem.bytes.get_address (op_of info))
              v.prefund b m'
    ]

-- The tests between the statuses and the validation.
unfoldable pub screen :
    Outside → UserOperationInfo → ReputationStatus → ReputationStatus → Bundle → Mempool → Step
screen out info p_status f_status b m =
    let op = op_of info in
    let g = out.viem.bytes.get_address in
    if is_banned_status p_status || is_banned_status f_status
    then (skip, b, record m { store = Store.remove_outstanding m.store info.user_operation_hash })
    else if has_its_share p_status (paymaster_of g op) b m
    then (skip, b, m)
    else if has_its_share f_status (factory_of g op) b m
    then (skip, b, m)
    else if member (sender op) b.senders && m.config.enforce_unique_senders_per_bundle
    then (skip, b, m)
    else validate_and_charge out info b m

unfoldable pub should_skip : Outside → UserOperationInfo → Bundle → Mempool → Step
should_skip out info b m =
    if not m.config.safe_mode
    then (take, b, m)
    else (let (statuses, m') = entity_statuses out.viem info m in
        elim statuses [
          | thrown e ↦ (failed, b, m')
          | returned (p_status, f_status) ↦ screen out info p_status f_status b m'
        ])
