-- ===== src/Executor/Replacing/Outbids.antt =====
-- What a replacement of a transaction promises, and when the wallet is given back.
use mathlib.Core.Path.{subst}
use pimlico_alto_smart_accou.Common.{
  sym, ◌∙◌, ap, ℕ, ◌*◌, ◌≤◌, ◌≡◌, refl, Bool, true, false, ◌&&◌, not, Option, none, some, List, [],
  ◌∷◌, map, any, find, find-passes, ==_iff, Bool-cases, Option-cases, inl, inr, arith,
  if◌then◌else◌,
}
use pimlico_alto_smart_accou.TimedQueue.{max_big_int}
use pimlico_alto_smart_accou.Store.{
  TransactionInfo, TransactionRequest, TransactionType, UserOperationInfo, has_hash,
}
use pimlico_alto_smart_accou.GasPrice.{GasPriceParameters, Result, gives, throws}
use pimlico_alto_smart_accou.Reputation.Interface.{AnyReputationManager}
use pimlico_alto_smart_accou.Senders.{Semaphore, SenderManager, mark_wallet_processed}
use pimlico_alto_smart_accou.Executor.{SimulatedOp}
use pimlico_alto_smart_accou.Executor.Simulation
use pimlico_alto_smart_accou.Executor.Simulation.{
  CallContext, bulk, Task, Filtered, filtered, escapes, is_live, reads_v06, first_version,
  filter_ops_and_estimate_gas,
}
use pimlico_alto_smart_accou.Executor.Simulation.Ends.{filter_ops_and_estimate_gas-ends}
use pimlico_alto_smart_accou.Executor.Sending.{Sent, accepted, rejected}
use pimlico_alto_smart_accou.Executor.Draft.{Network, Executor}
use pimlico_alto_smart_accou.Executor.Replacing.{
  refreshed, infos_with_hashes, after_replacing, send_replacement, after_resimulation,
  replacing_task, resimulate, replace_by_type, replace_transaction,
}
use pimlico_alto_smart_accou.Executor.Renewal.{
  Replaced, replaced, potentially_already_included, failed, throws_error, out_of_fuel, outbid,
  with_new_fees, uniform_version, infos_of, with_info, is_nonce_reason, is_nonce_too_low,
}

abbrev pub knows : ℕ → List UserOperationInfo → Bool
knows hash infos = any (has_hash hash) infos

-- All entries of the first list have their hashes in the second.
abbrev pub all_known : List UserOperationInfo → List UserOperationInfo → Bool
all_known [] infos = true
all_known (i ∷ is) infos = knows i.user_operation_hash infos && all_known is infos

-- The fees are a tenth higher at least, the gas is no lower, the nonce and the wallet are the same,
-- the operations are among the old ones, and the old hash is remembered.
pub record Outbids (old new : TransactionInfo) : Type 0 where
  pub fee :
      11 * old.transaction_request.max_fee_per_gas ≤ 10 * new.transaction_request.max_fee_per_gas
  pub priority_fee :
      11 * old.transaction_request.max_priority_fee_per_gas
      ≤ 10 * new.transaction_request.max_priority_fee_per_gas
  pub gas : old.transaction_request.gas ≤ new.transaction_request.gas
  pub nonce : new.transaction_request.nonce ≡ old.transaction_request.nonce
  pub executor : new.executor ≡ old.executor
  pub known : all_known new.user_operation_infos old.user_operation_infos ≡ true
  pub remembered :
      new.previous_transaction_hashes ≡ old.transaction_hash ∷ old.previous_transaction_hashes

outbid-le : (price fee : ℕ) → 11 * fee ≤ 10 * max_big_int price (outbid fee)
outbid-le price fee = ground arith

max-le : (a b : ℕ) → a ≤ max_big_int a b
max-le a b = ground arith

find-any :
    (p : UserOperationInfo → Bool) (infos : List UserOperationInfo) (i : UserOperationInfo)
    → find p infos ≡ some i
    → any p infos ≡ true
find-any p [] i e = cc
find-any p (j ∷ infos) i e = ground (arith, find-any p infos i)

find_known :
    (h : ℕ) (infos : List UserOperationInfo) (i : UserOperationInfo)
    → find (has_hash h) infos ≡ some i
    → knows i.user_operation_hash infos ≡ true
find_known h infos i e =
    let same : i.user_operation_hash ≡ h =
      (==_iff i.user_operation_hash h).0 (find-passes (has_hash h) infos i e) in
    subst (λ k. knows k infos ≡ true) (sym same) (find-any (has_hash h) infos i e)

-- The entries that are found have their hashes among the old ones.
abbrev Found : List UserOperationInfo → Option (List UserOperationInfo) → Type 0
Found infos none = Unit {0}
Found infos (some is) = all_known is infos ≡ true

with_info-Found :
    (infos : List UserOperationInfo) (h : ℕ) (o : Option UserOperationInfo)
    (r : Option (List UserOperationInfo))
    → find (has_hash h) infos ≡ o
    → Found infos r
    → Found infos (with_info o r)
with_info-Found infos h none r e f = tt
with_info-Found infos h (some i) none e f = tt
with_info-Found infos h (some i) (some is) e f = rw (find_known h infos i e) f

if-Found :
    (infos : List UserOperationInfo) (b : Bool) (r s : Option (List UserOperationInfo))
    → Found infos r
    → Found infos s
    → Found infos (if b then r else s)
if-Found infos true r s f g = f
if-Found infos false r s f g = g

infos_of-Found :
    (infos : List UserOperationInfo) (ops : List SimulatedOp) → Found infos (infos_of infos ops)
unfolding infos_of
infos_of-Found infos [] = refl
infos_of-Found infos (op ∷ ops) =
    if-Found infos (is_live op) _ _
      (with_info-Found infos op.owh.user_operation_hash _ (infos_of infos ops) refl
        (infos_of-Found infos ops))
      (infos_of-Found infos ops)

module _ {S : Type 0} (sem : Semaphore S) (net : Network) where
  -- The wallet is given back exactly where the replacement fails.
  abbrev pub Replaces : TransactionInfo → SenderManager S → Replaced × Executor S → Type 0
  Replaces old m (replaced new, y) = (y.senders ≡ m) × Outbids old new
  Replaces old m (potentially_already_included, y) = y.senders ≡ m
  Replaces old m (failed, y) = y.senders ≡ mark_wallet_processed sem old.executor m
  Replaces old m (throws_error, y) = y.senders ≡ m
  Replaces old m (out_of_fuel, y) = 1 ≤ 0

  refreshed_known :
      (is infos : List UserOperationInfo)
      → all_known (map (refreshed sem net) is) infos ≡ all_known is infos
  refreshed_known [] infos = refl
  refreshed_known (i ∷ is) infos =
      ap (λ b. knows i.user_operation_hash infos && b) (refreshed_known is infos)

  -- The request of a replacement, before the gas and the operations are known.
  record Raised (old r : TransactionRequest) : Type 0 where
    fee : 11 * old.max_fee_per_gas ≤ 10 * r.max_fee_per_gas
    priority_fee : 11 * old.max_priority_fee_per_gas ≤ 10 * r.max_priority_fee_per_gas
    gas : r.gas ≡ old.gas
    nonce : r.nonce ≡ old.nonce

  new_fees-Raised :
      (price : GasPriceParameters) (r : TransactionRequest) → Raised r (with_new_fees price r)
  new_fees-Raised price r = record {
    fee = outbid-le price.max_fee_per_gas r.max_fee_per_gas;
    priority_fee = outbid-le price.max_priority_fee_per_gas r.max_priority_fee_per_gas;
    gas = refl;
    nonce = refl;
  }

  after_replacing-Replaces :
      (info : TransactionInfo) (r : TransactionRequest) (gas : ℕ) (call_data : _)
      (infos : List UserOperationInfo) (x : Executor S) (s : Sent)
      → Raised info.transaction_request r
      → all_known infos info.user_operation_infos ≡ true
      → Replaces info x.senders (
          after_replacing sem net info
            (record r { gas = max_big_int r.gas gas; call_data = call_data })
            infos
            x
            s)
  unfolding after_replacing
  after_replacing-Replaces info r gas call_data infos x (accepted tx) h k = (
    refl,
    record {
      fee = h.fee;
      priority_fee = h.priority_fee;
      gas = subst (λ g. g ≤ max_big_int r.gas gas) h.gas (max-le r.gas gas);
      nonce = h.nonce;
      executor = refl;
      known = refreshed_known infos info.user_operation_infos ∙ k;
      remembered = refl;
    },
  )
  after_replacing-Replaces info r gas call_data infos x (rejected e) h k =
      elim (Bool-cases (is_nonce_too_low e.cause)) [
        | inl c ↦ rw (c, after_replacing) refl
        | inr c ↦ rw (c, after_replacing) refl
      ]

  send_replacement-Replaces :
      (v06 : Bool) (inflator : ℕ) (info : TransactionInfo) (r : TransactionRequest) (estimate : ℕ)
      (x : Executor S) (o : Option (List UserOperationInfo))
      → Raised info.transaction_request r
      → Found info.user_operation_infos o
      → Replaces info x.senders (send_replacement sem net v06 inflator info r estimate x o)
  unfolding send_replacement
  send_replacement-Replaces v06 inflator info r estimate x none h f = refl
  send_replacement-Replaces v06 inflator info r estimate x (some infos) h f =
      after_replacing-Replaces info r _ _ infos x _ h f

  if-Replaces :
      (old : TransactionInfo) (m : SenderManager S) (b : Bool) (x y : Replaced × Executor S)
      → Replaces old m x
      → Replaces old m y
      → Replaces old m (if b then x else y)
  if-Replaces old m true x y h k = h
  if-Replaces old m false x y h k = k

  after_resimulation-Replaces :
      (v06 : Bool) (inflator : ℕ) (info : TransactionInfo) (r : TransactionRequest) (x : Executor S)
      (f : Filtered) (rep : AnyReputationManager)
      → Raised info.transaction_request r
      → Replaces info x.senders (after_resimulation sem net v06 inflator info r x (some (f, rep)))
  unfolding after_resimulation
  after_resimulation-Replaces v06 inflator info r x escapes rep h = refl
  after_resimulation-Replaces v06 inflator info r x (filtered [] gas) rep h = refl
  after_resimulation-Replaces v06 inflator info r x (filtered (op ∷ ops) gas) rep h =
      if-Replaces info x.senders (not (any (λ o. not (is_nonce_reason o.reason)) (op ∷ ops))) _ _
        refl
        (if-Replaces info x.senders (not (any is_live (op ∷ ops))) _ _ refl (
          send_replacement-Replaces v06 inflator info r gas _ _ h
            (infos_of-Found info.user_operation_infos (op ∷ ops))))

  resimulate-Replaces :
      (v06 : Bool) (inflator : ℕ) (context : CallContext) (info : TransactionInfo)
      (r : TransactionRequest) (x : Executor S)
      → Raised info.transaction_request r
      → first_version context (infos_with_hashes sem net x.config.chain_id info) ≡ some v06
      → Replaces info x.senders (resimulate sem net v06 inflator context info r x)
  unfolding resimulate
  resimulate-Replaces v06 inflator context info r x h version =
      let t : Task = replacing_task sem net x.config context info r in
      let (f, rep, same, a) =
        filter_ops_and_estimate_gas-ends net.viem.bytes net.ask t
          (infos_with_hashes sem net x.config.chain_id info) x.mempool.reputation v06 version in
      rw same (after_resimulation-Replaces v06 inflator info r x f rep h)

  uniform_read :
      (chain_id : ℕ) (info : TransactionInfo) (infos : List UserOperationInfo) (v06 : Bool)
      → info.user_operation_infos ≡ infos
      → uniform_version infos ≡ some v06
      → first_version Simulation.default (infos_with_hashes sem net chain_id info) ≡ some v06
  unfolding uniform_version first_version
  uniform_read chain_id info [] v06 e h = cc
  uniform_read chain_id info (i ∷ infos) v06 e h = rw e (if_some _ _ h)
    where
      if_some : (b v : Bool) → (if b then none else some v) ≡ some v06 → some v ≡ some v06
      if_some true v h = cc
      if_some false v h = h

  by_type-Replaces :
      (type : TransactionType) (info : TransactionInfo) (r : TransactionRequest) (x : Executor S)
      → Raised info.transaction_request r
      → Replaces info x.senders (replace_by_type sem net type info r x)
  unfolding replace_by_type first_version
  by_type-Replaces TransactionType.default info r x h =
      elim (Option-cases (uniform_version info.user_operation_infos)) [
        | inl e ↦ rw (e, replace_by_type) refl
        | inr (v06, e) ↦
            rw (e, replace_by_type)
              (resimulate-Replaces v06 0 Simulation.default info r x h
                (uniform_read x.config.chain_id info info.user_operation_infos v06 refl e))
      ]
  by_type-Replaces TransactionType.compressed info r x h = elim (Option-cases x.compression) [
    | inl e ↦ rw (e, replace_by_type) refl
    | inr (k, e) ↦
        rw (e, replace_by_type) (resimulate-Replaces true k.per_op_inflator_id _ info r x h refl)
  ]

  -- Whatever the network answers, `replaceTransaction` ends. A replacement that is sent has fees a
  -- tenth higher at least, no less gas, the same nonce and wallet, and only operations of the old
  -- transaction, whose hash it remembers; the wallet is given back where it fails, and only there.
  pub replace_transaction-Replaces :
      (info : TransactionInfo) (x : Executor S)
      → Replaces info x.senders (replace_transaction sem net info x)
  unfolding replace_transaction
  replace_transaction-Replaces info x = by_price net.network_gas_price refl
    where
      by_price :
          (p : Result GasPriceParameters)
          → net.network_gas_price ≡ p
          → Replaces info x.senders (replace_transaction sem net info x)
      by_price (throws e) h = rw (h, replace_transaction) refl
      by_price (gives price) h =
          rw (h, replace_transaction)
            (by_type-Replaces info.transaction_type info _ x
              (new_fees-Raised price info.transaction_request))
