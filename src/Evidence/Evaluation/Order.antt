-- ===== src/Evidence/Evaluation/Order.antt =====
-- The order of the observations does not matter to an evaluation.
use sisyphus_harness.Prelude.{
  ℕ, suc, Option-cases, inl, inr, String, ◌≡◌, refl, sym, ◌∙◌, ap, Bool, true, false, some, List,
  [], ◌∷◌, ◌==◌, arith, if◌then◌else◌, select_all, length, eq_iff,
}
use sisyphus_harness.Prelude.Sorting.{insert_by, sort_by}
use sisyphus_harness.Prelude.Text.{text_le_total, text_le_trans, text_le_antisymm}
use sisyphus_harness.Evidence.{EvidenceObservation, EvidenceClause, EvidenceContract, selector_eq}
use sisyphus_harness.Evidence.Lint.{has_id, Limits, LintIssue, lint_rule_set}
use sisyphus_harness.Evidence.Evaluation.{
  Codec, key_le, id_le, has_duplicates, observation_ids_of, observation_set_digest, matches_of,
  evaluate_clauses, observation_input_error, contract_linted, evaluate_evidence_contract, judge,
  contract_error,
}

-- One tuple holds the observations of the other in another order.
pub data Reordering : List EvidenceObservation → List EvidenceObservation → Type 0 where
  empty : Reordering [] []
  keep :
      {xs ys : List EvidenceObservation} (a : EvidenceObservation)
      → Reordering xs ys
      → Reordering (a ∷ xs) (a ∷ ys)
  exchange :
      (a b : EvidenceObservation) (xs : List EvidenceObservation)
      → Reordering (a ∷ b ∷ xs) (b ∷ a ∷ xs)
  chain :
      {xs ys zs : List EvidenceObservation} → Reordering xs ys → Reordering ys zs → Reordering xs zs

-- A total order of observations that is antisymmetric up to their ids.
pub record IsIdOrder (le : EvidenceObservation → EvidenceObservation → Bool) : Type 0 where
  pub total : (a b : EvidenceObservation) → le a b ≡ false → le b a ≡ true
  pub trans : (a b c : EvidenceObservation) → le a b ≡ true → le b c ≡ true → le a c ≡ true
  pub antisymm :
      (a b : EvidenceObservation)
      → le a b ≡ true
      → le b a ≡ true
      → a.observation_id ≡ b.observation_id

id_le-IsIdOrder : IsIdOrder id_le
id_le-IsIdOrder = record {
  total = λ a b. text_le_total a.observation_id b.observation_id;
  trans = λ a b c. text_le_trans a.observation_id b.observation_id c.observation_id;
  antisymm = λ a b. text_le_antisymm a.observation_id b.observation_id;
}

eq_symm : (s t : String) → (s == t) ≡ (t == s)
eq_symm s t = ground (arith, eq_iff s t, eq_iff t s)

key_le-IsIdOrder : (codec : Codec) → IsIdOrder (key_le codec)
key_le-IsIdOrder codec = record {
  total = λ a b h. ground (
    arith,
    eq_symm a.observation_id b.observation_id,
    text_le_total a.observation_id b.observation_id,
    text_le_total (codec.observation_digest a) (codec.observation_digest b),
  );
  trans = λ a b c h k. ground (
    arith,
    eq_iff a.observation_id b.observation_id,
    eq_iff b.observation_id c.observation_id,
    eq_iff a.observation_id c.observation_id,
    text_le_trans a.observation_id b.observation_id c.observation_id,
    text_le_antisymm a.observation_id b.observation_id,
    text_le_trans (codec.observation_digest a) (codec.observation_digest b)
        (codec.observation_digest c),
  );
  antisymm = λ a b h k. ground (
    arith,
    eq_iff a.observation_id b.observation_id,
    eq_iff b.observation_id a.observation_id,
    text_le_antisymm a.observation_id b.observation_id,
  );
}

has_id-Reordering :
    {xs ys : List EvidenceObservation} (id : String)
    → Reordering xs ys
    → has_id id (observation_ids_of xs) ≡ has_id id (observation_ids_of ys)
has_id-Reordering id empty = refl
has_id-Reordering id (keep a d) = ground (arith, has_id-Reordering id d)
has_id-Reordering id (exchange a b l) = ground arith
has_id-Reordering id (chain d d') = has_id-Reordering id d ∙ has_id-Reordering id d'

has_duplicates-Reordering :
    {xs ys : List EvidenceObservation}
    → Reordering xs ys
    → has_duplicates (observation_ids_of xs) ≡ has_duplicates (observation_ids_of ys)
unfolding has_duplicates
has_duplicates-Reordering empty = refl
has_duplicates-Reordering (keep a d) =
    ground (arith, has_id-Reordering a.observation_id d, has_duplicates-Reordering d)
has_duplicates-Reordering (exchange a b l) =
    ground (arith, eq_symm a.observation_id b.observation_id)
has_duplicates-Reordering (chain d d') = has_duplicates-Reordering d ∙ has_duplicates-Reordering d'

module _ (le : EvidenceObservation → EvidenceObservation → Bool) (order : IsIdOrder le) where
  insert-insert :
      (a b : EvidenceObservation) (l : List EvidenceObservation)
      → (a.observation_id == b.observation_id) ≡ false
      → insert_by le a (insert_by le b l) ≡ insert_by le b (insert_by le a l)
  unfolding insert_by
  insert-insert a b [] h =
      ground (arith, order.total a b, order.antisymm a b, eq_iff a.observation_id b.observation_id)
  insert-insert a b (x ∷ l) h = ground (
    arith,
    order.total a b,
    order.antisymm a b,
    eq_iff a.observation_id b.observation_id,
    insert-insert a b l h,
    order.trans a b x,
    order.trans b a x,
    order.total a x,
    order.total b x,
    order.trans a x b,
    order.trans b x a,
  )

  -- Sorting forgets the order where no id occurs twice.
  pub sort_by-Reordering :
      {xs ys : List EvidenceObservation}
      → Reordering xs ys
      → has_duplicates (observation_ids_of xs) ≡ false
      → sort_by le xs ≡ sort_by le ys
  unfolding sort_by has_duplicates
  sort_by-Reordering empty h = refl
  sort_by-Reordering (keep a d) h = ground (arith, sort_by-Reordering d)
  sort_by-Reordering (exchange a b l) h =
      ground (arith, insert-insert a b (sort_by le l), eq_symm a.observation_id b.observation_id)
  sort_by-Reordering (chain d d') h =
      sort_by-Reordering d h ∙ sort_by-Reordering d' (sym (has_duplicates-Reordering d) ∙ h)

unchanged : (xs : List EvidenceObservation) → Reordering xs xs
unchanged [] = empty
unchanged (a ∷ xs) = keep a (unchanged xs)

keep_if :
    {xs ys : List EvidenceObservation} (b : Bool) (a : EvidenceObservation)
    → Reordering xs ys
    → Reordering (if b then a ∷ xs else xs) (if b then a ∷ ys else ys)
keep_if true a d = keep a d
keep_if false a d = d

exchange_if :
    (p q : Bool) (a b : EvidenceObservation) (l : List EvidenceObservation)
    → Reordering
        (if p then a ∷ (if q then b ∷ l else l) else (if q then b ∷ l else l))
        (if q then b ∷ (if p then a ∷ l else l) else (if p then a ∷ l else l))
exchange_if true true a b l = exchange a b l
exchange_if true false a b l = keep a (unchanged l)
exchange_if false true a b l = keep b (unchanged l)
exchange_if false false a b l = unchanged l

select_all-Reordering :
    {xs ys : List EvidenceObservation} (p : EvidenceObservation → Bool)
    → Reordering xs ys
    → Reordering (select_all p xs) (select_all p ys)
select_all-Reordering p empty = empty
select_all-Reordering p (keep a d) = keep_if (p a) a (select_all-Reordering p d)
select_all-Reordering p (exchange a b l) = exchange_if (p a) (p b) a b (select_all p l)
select_all-Reordering p (chain d d') =
    chain (select_all-Reordering p d) (select_all-Reordering p d')

has_id-select_all :
    (p : EvidenceObservation → Bool) (id : String) (xs : List EvidenceObservation)
    → has_id id (observation_ids_of xs) ≡ false
    → has_id id (observation_ids_of (select_all p xs)) ≡ false
has_id-select_all p id [] h = refl
has_id-select_all p id (x ∷ xs) h = ground (arith, has_id-select_all p id xs)

has_duplicates-select_all :
    (p : EvidenceObservation → Bool) (xs : List EvidenceObservation)
    → has_duplicates (observation_ids_of xs) ≡ false
    → has_duplicates (observation_ids_of (select_all p xs)) ≡ false
unfolding has_duplicates
has_duplicates-select_all p [] h = refl
has_duplicates-select_all p (x ∷ xs) h =
    ground (arith, has_duplicates-select_all p xs, has_id-select_all p x.observation_id xs)

evaluate_clauses-Reordering :
    {xs ys : List EvidenceObservation} (cs : List EvidenceClause)
    → Reordering xs ys
    → has_duplicates (observation_ids_of xs) ≡ false
    → evaluate_clauses cs xs ≡ evaluate_clauses cs ys
unfolding evaluate_clauses matches_of
evaluate_clauses-Reordering [] d h = refl
evaluate_clauses-Reordering {xs} {ys} (c ∷ rest) d h =
    let p = λ (o : EvidenceObservation). selector_eq o.selector c.selector in
    let same : sort_by id_le (select_all p xs) ≡ sort_by id_le (select_all p ys) =
      sort_by-Reordering id_le id_le-IsIdOrder (select_all-Reordering p d)
        (has_duplicates-select_all p xs h) in
    let others = evaluate_clauses-Reordering rest d h in λ i. judge c (same i) ∷ others i

length-Reordering : {xs ys : List EvidenceObservation} → Reordering xs ys → length xs ≡ length ys
length-Reordering empty = refl
length-Reordering (keep a d) = ap suc (length-Reordering d)
length-Reordering (exchange a b l) = refl
length-Reordering (chain d d') = length-Reordering d ∙ length-Reordering d'

digest-Reordering :
    {xs ys : List EvidenceObservation} (codec : Codec)
    → Reordering xs ys
    → has_duplicates (observation_ids_of xs) ≡ false
    → observation_set_digest codec xs ≡ observation_set_digest codec ys
unfolding observation_set_digest
digest-Reordering codec d h =
    ap codec.set_digest (sort_by-Reordering (key_le codec) (key_le-IsIdOrder codec) d h)

contract_linted-Reordering :
    {xs ys : List EvidenceObservation} (codec : Codec) (limits : Limits) (c : EvidenceContract)
    (issues : List LintIssue)
    → Reordering xs ys
    → has_duplicates (observation_ids_of xs) ≡ false
    → contract_linted codec limits c xs issues ≡ contract_linted codec limits c ys issues
unfolding contract_linted observation_input_error
contract_linted-Reordering {xs} {ys} codec limits c (_ ∷ _) d h =
    ap (λ digest. some (contract_error (codec.contract_digest c) digest "contract_lint_failed"))
      (digest-Reordering codec d h)
contract_linted-Reordering {xs} {ys} codec limits c [] d h = ground (
  arith,
  digest-Reordering codec d h,
  evaluate_clauses-Reordering c.clauses d h,
  length-Reordering d,
  has_duplicates-Reordering d,
)

-- Observations without two of one id, in another order: the evaluation of a contract returns the same,
-- the digest of the observations included.
pub evaluate_evidence_contract-Reordering :
    {xs ys : List EvidenceObservation} (fuel : ℕ) (codec : Codec) (limits : Limits)
    (c : EvidenceContract)
    → Reordering xs ys
    → has_duplicates (observation_ids_of xs) ≡ false
    → evaluate_evidence_contract fuel codec limits c xs
      ≡ evaluate_evidence_contract fuel codec limits c ys
unfolding evaluate_evidence_contract
evaluate_evidence_contract-Reordering {xs} {ys} fuel codec limits c d h =
    let lint = lint_rule_set fuel limits c.clauses c.task_success (codec.contract_bytes c) in
    elim (Option-cases lint) [
      | inl out ↦ ground (arith, length-Reordering d)
      | inr (issues, found) ↦
          ground (arith, length-Reordering d, contract_linted-Reordering codec limits c issues d h)
    ]
