-- ===== src/Routes/Requirements.antt =====
-- What is still missing before a case can be defended.
use chargeback_iq.Prelude.{
  ℕ, String, none, some, Option, Bool, false, ◌||◌, List, [], ◌∷◌, ◌≡◌, ◌↔◌, refl, sym, ap, subst,
  ◌∙◌, inl, inr, arith, In, In-keep, In-of_In-keep, In-map, of_In-map, keep, find, any, ◌==◌,
  ==_refl,
}
use chargeback_iq.Schema.{Db, Env, Kind, Requirement, Evidence}
use chargeback_iq.Repositories.Disputes.{
  DisputeDetails, find_dispute_by_id, is_kind, is_evidence_of,
}
use chargeback_iq.Repositories.Disputes.Queue.{list_evidence, insert_by, order_by, join_kinds}
use chargeback_iq.Repositories.Disputes.Order.{In-order_by, In-of_In-order_by}
use chargeback_iq.Repositories.Reference.{
  ListedRequirement, list_evidence_requirements, named, rank, is_for, join_kinds as join_required,
}
use chargeback_iq.Routes.{reply, serve}
use chargeback_iq.Routes.Disputes.{
  requirements_body, Schemas, RequirementsPage, requirements_page, has_kind, is_missing,
  missing_required, get_requirements,
}
use chargeback_iq.Routes.Pages.{reply-data}

-- The foreign keys to `evidence_kinds`.
pub record HasKinds (db : Db) : Type 0 where
  pub required :
      (r : Requirement)
      → In r db.requirements
      → (k : Kind) × (find (is_kind r.evidence_kind_code) db.evidence_kinds ≡ some k)
  pub filed :
      (e : Evidence)
      → In e db.evidence
      → (k : Kind) × (find (is_kind e.kind_code) db.evidence_kinds ≡ some k)

In-of_In-named :
    (kinds : List Kind) (rs : List Requirement) (x : ListedRequirement)
    → In x (join_required kinds rs)
    → (r : Requirement) × In r rs
      × (x.evidence_kind_code ≡ r.evidence_kind_code)
      × (x.requirement ≡ r.requirement)
In-of_In-named kinds [] x i = elim i [ ]
In-of_In-named kinds (r ∷ rs) x i =
    of_kind (find (is_kind r.evidence_kind_code) kinds) (In-of_In-named kinds rs x) i
  where
    of_kind :
        (o : Option Kind)
        → (In x (join_required kinds rs)
            → (q : Requirement) × In q rs
              × (x.evidence_kind_code ≡ q.evidence_kind_code)
              × (x.requirement ≡ q.requirement))
        → In x (named r o (join_required kinds rs))
        → (q : Requirement) × In q (r ∷ rs)
          × (x.evidence_kind_code ≡ q.evidence_kind_code)
          × (x.requirement ≡ q.requirement)
    of_kind none rest j = let (q, k, c, e) = rest j in (q, inr k, c, e)
    of_kind (some k) rest (inl same) = (
      r,
      inl refl,
      ap (λ (y : ListedRequirement). y.evidence_kind_code) same,
      ap (λ (y : ListedRequirement). y.requirement) same,
    )
    of_kind (some k) rest (inr j) = let (q, k, c, e) = rest j in (q, inr k, c, e)

In-named :
    (kinds : List Kind) (rs : List Requirement) (r : Requirement)
    → In r rs
    → (k : Kind) → find (is_kind r.evidence_kind_code) kinds ≡ some k
    → (x : ListedRequirement) × In x (join_required kinds rs)
      × (x.evidence_kind_code ≡ r.evidence_kind_code)
      × (x.requirement ≡ r.requirement)
In-named kinds [] r i k f = elim i [ ]
In-named kinds (q ∷ rs) r (inl same) k f = (
  record {
    evidence_kind_code = q.evidence_kind_code;
    requirement = q.requirement;
    name = k.name;
    description = k.description;
  },
  rw (subst (λ (y : Requirement). find (is_kind y.evidence_kind_code) kinds ≡ some k) same f)
      (inl refl),
  ap (λ (y : Requirement). y.evidence_kind_code) (sym same),
  ap (λ (y : Requirement). y.requirement) (sym same),
)
In-named kinds (q ∷ rs) r (inr i) k f =
    let (x, j, c, e) = In-named kinds rs r i k f in
    (x, later x (find (is_kind q.evidence_kind_code) kinds) j, c, e)
  where
    later :
        (x : ListedRequirement) (o : Option Kind)
        → In x (join_required kinds rs)
        → In x (named q o (join_required kinds rs))
    later x none j = j
    later x (some k) j = inr j

-- The join keeps every item, since each has its kind.
any-join :
    (kinds : List Kind) (code : String) (es : List Evidence)
    → ((e : Evidence) → In e es → (k : Kind) × (find (is_kind e.kind_code) kinds ≡ some k))
    → has_kind (join_kinds kinds es) code ≡ any (λ (e : Evidence). e.kind_code == code) es
any-join kinds code [] h = refl
any-join kinds code (e ∷ es) h =
    let (k, f) = h e (inl refl) in ground (arith, f, any-join kinds code es (λ x i. h x (inr i)))

-- Whether an item of the kind is filed for the dispute.
abbrev pub is_filed : (dispute_id code : String) → Db → Bool
is_filed dispute_id code db =
    any (λ (e : Evidence). e.kind_code == code) (keep (is_evidence_of dispute_id) db.evidence)

-- The kind is required for the reason code and no item of it is filed for the dispute.
pub record IsMissing (db : Db) (reason_code_id dispute_id code : String) : Type 0 where
  pub row : Requirement
  pub listed : In row db.requirements
  pub reason : row.reason_code_id ≡ reason_code_id
  pub kind : row.evidence_kind_code ≡ code
  pub required : row.requirement ≡ "REQUIRED"
  pub unfiled : is_filed dispute_id code db ≡ false

any-insert_by :
    (p : Evidence → Bool) (key : Evidence → ℕ) (x : Evidence) (ys : List Evidence)
    → any p (insert_by key x ys) ≡ (p x || any p ys)
unfolding insert_by
any-insert_by p key x [] = refl
any-insert_by p key x (y ∷ ys) = ground (arith, any-insert_by p key x ys)

-- The order of the rows does not matter to a search.
any-order_by :
    (p : Evidence → Bool) (key : Evidence → ℕ) (xs : List Evidence)
    → any p (order_by key xs) ≡ any p xs
unfolding order_by
any-order_by p key [] = refl
any-order_by p key (x ∷ xs) =
    ground (arith, any-insert_by p key x (order_by key xs), any-order_by p key xs)

has_kind-list_evidence :
    (id code : String) (db : Db)
    → HasKinds db
    → has_kind (list_evidence id db) code ≡ is_filed id code db
unfolding list_evidence
has_kind-list_evidence id code db kinds =
    let rows = keep (is_evidence_of id) db.evidence in
    any-join db.evidence_kinds code (order_by (λ e. e.created_at) rows) (λ e i.
      kinds.filed e
        (In-of_In-keep (is_evidence_of id) db.evidence e (In-of_In-order_by _ rows e i)).0)
    ∙ any-order_by _ _ rows

IsMissing-iff :
    (id reason code : String) (db : Db)
    → HasKinds db
    → In code (missing_required (list_evidence id db) (list_evidence_requirements reason db))
      ↔ IsMissing db reason id code
unfolding missing_required list_evidence_requirements
IsMissing-iff id reason code db kinds = (to, back)
  where
    rows : List Requirement
    rows = keep (is_for reason) db.requirements

    to :
        In code (missing_required (list_evidence id db) (list_evidence_requirements reason db))
        → IsMissing db reason id code
    to i =
        let (x, j, same) = of_In-map _ _ code i in
        let (k, missing) = In-of_In-keep (is_missing (list_evidence id db)) _ x j in
        let (r, l, kind, level) =
          In-of_In-named db.evidence_kinds (order_by (λ q. rank q.requirement) rows) x k in
        let (listed, for_it) =
          In-of_In-keep (is_for reason) db.requirements r (In-of_In-order_by _ rows r l) in
        record {
          row = r;
          listed = listed;
          reason = ground arith;
          kind = sym kind ∙ sym same;
          required = ground (arith, level);
          unfiled = sym (has_kind-list_evidence id code db kinds) ∙ ground (arith, same);
        }

    back :
        IsMissing db reason id code
        → In code (missing_required (list_evidence id db) (list_evidence_requirements reason db))
    back m =
        let ordered =
          In-order_by (λ q. rank q.requirement) rows m.row
            (In-keep (is_for reason) db.requirements m.row m.listed
              (ground (arith, m.reason, ==_refl reason))) in
        let (k, f) = kinds.required m.row m.listed in
        let (x, i, kind, level) = In-named db.evidence_kinds _ m.row ordered k f in
        let same : x.evidence_kind_code ≡ code = kind ∙ m.kind in
        let unfiled : has_kind (list_evidence id db) x.evidence_kind_code ≡ false =
          has_kind-list_evidence id x.evidence_kind_code db kinds
          ∙ ap (λ c. is_filed id c db) same
          ∙ m.unfiled in
        subst
          (λ c.
            In c (missing_required (list_evidence id db) (list_evidence_requirements reason db)))
          same
          (In-map (λ r. r.evidence_kind_code) _ x
            (In-keep (is_missing (list_evidence id db)) _ x i
              (ground (arith, unfiled, level, m.required, ==_refl "REQUIRED"))))

-- The page of the requirements names a kind as missing exactly when it is required for the reason code of
-- the dispute and no item of the kind is filed for the dispute. Every kind that is required or filed is in
-- the table of kinds, by the foreign keys.
pub get_requirements-IsMissing :
    {J : Type 0} (z : Schemas J) (env : Env) (params : J) (id code : String) (db : Db)
    (d : DisputeDetails) (page : RequirementsPage)
    → HasKinds db
    → z.uuid_param params ≡ some id
    → find_dispute_by_id id db ≡ some d
    → get_requirements z env params db ≡ (reply 200 page, db)
    → In code page.missing_required ↔ IsMissing db d.dispute.reason_code_id d.dispute.id code
unfolding get_requirements requirements_body serve
get_requirements-IsMissing z env params id code db d page kinds p found shown =
    let expected : RequirementsPage =
      requirements_page d (list_evidence_requirements d.dispute.reason_code_id db)
        (list_evidence d.dispute.id db) in
    let same : expected ≡ page =
      reply-data {n = 200} {s = db} (get_requirements z env params db) (rw (p, found) refl) shown in
    subst
      (λ (x : RequirementsPage).
        In code x.missing_required ↔ IsMissing db d.dispute.reason_code_id d.dispute.id code)
      same (IsMissing-iff d.dispute.id d.dispute.reason_code_id code db kinds)
