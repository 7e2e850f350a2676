-- ===== src/Api/DeepCopy/Isolation.antt =====
-- A deep copy of a server has its contents, and shares no array with it.
use portkeeper.Common.{ℕ, ◌≡◌, refl, ◌∙◌, String, List, [], ◌∷◌, All}
use portkeeper.Api.{ServiceAccountReference, Condition, ObjectMeta, McpServer}
use portkeeper.Api.Memory.{
  elements, assign, Begins, IsMade, elements-assign, elements-copy_slice, copy_slice-elements,
  copy_slice-apart,
}
use portkeeper.Api.DeepCopy.{
  TypeMeta, ServerObject, Store, deep_copy_into_spec, deep_copy_into_status, deep_copy_into_server,
}

-- What an object says: the resource, with the elements of its slices.
abbrev pub contents : Store → ServerObject → TypeMeta × McpServer
contents s r = (
  r.type_meta,
  record {
    meta = r.meta;
    spec = record {
      image = r.spec.image;
      port = r.spec.port;
      tools = elements s.tools r.spec.tools;
      allowed_service_accounts = elements s.accounts r.spec.allowed_service_accounts;
      auth_type = r.spec.auth_type;
      auth_secret_ref = r.spec.auth_secret_ref;
    };
    status = record {
      phase = r.status.phase;
      observed_generation = r.status.observed_generation;
      conditions = elements s.conditions r.status.conditions;
    };
  },
)

-- The arrays of the object are in the store.
pub record IsStored (s : Store) (r : ServerObject) : Type 0 where
  pub tools : IsMade s.tools r.spec.tools
  pub accounts : IsMade s.accounts r.spec.allowed_service_accounts
  pub conditions : IsMade s.conditions r.status.conditions

-- An assignment to an element of an array.
pub data Write : Type 0 where
  to_tool : (address i : ℕ) → String → Write
  to_account : (address i : ℕ) → ServiceAccountReference → Write
  to_condition : (address i : ℕ) → Condition → Write

abbrev pub apply : Write → Store → Store
apply (to_tool p i v) s = record s { tools = assign p i v s.tools }
apply (to_account p i v) s = record s { accounts = assign p i v s.accounts }
apply (to_condition p i v) s = record s { conditions = assign p i v s.conditions }

unfoldable pub apply_all : List Write → Store → Store
apply_all [] s = s
apply_all (w ∷ ws) s = apply_all ws (apply w s)

-- The assignment is to an element of a slice of the object.
abbrev pub Through : ServerObject → Write → Type 0
Through r (to_tool p i v) = Begins r.spec.tools p
Through r (to_account p i v) = Begins r.spec.allowed_service_accounts p
Through r (to_condition p i v) = Begins r.status.conditions p

pub record IsApart (r q : ServerObject) : Type 0 where
  pub tools : (p : ℕ) → Begins r.spec.tools p → Begins q.spec.tools p → ⊥
  pub accounts :
      (p : ℕ)
      → Begins r.spec.allowed_service_accounts p
      → Begins q.spec.allowed_service_accounts p
      → ⊥
  pub conditions : (p : ℕ) → Begins r.status.conditions p → Begins q.status.conditions p → ⊥

pub flipped : {r q : ServerObject} → IsApart r q → IsApart q r
flipped apart = record {
  tools = λ p b a. apart.tools p a b;
  accounts = λ p b a. apart.accounts p a b;
  conditions = λ p b a. apart.conditions p a b;
}

pub apply-contents :
    (r q : ServerObject) (w : Write) (s : Store)
    → IsApart r q
    → Through r w
    → contents (apply w s) q ≡ contents s q
apply-contents r q (to_tool p i v) s apart through =
    rw (elements-assign s.tools q.spec.tools p i v (apart.tools p through)) refl
apply-contents r q (to_account p i v) s apart through =
    rw (elements-assign s.accounts q.spec.allowed_service_accounts p i v (apart.accounts p through))
      refl
apply-contents r q (to_condition p i v) s apart through =
    rw (elements-assign s.conditions q.status.conditions p i v (apart.conditions p through)) refl

apply_all-contents :
    (r q : ServerObject) (ws : List Write) (s : Store)
    → IsApart r q
    → All (Through r) ws
    → contents (apply_all ws s) q ≡ contents s q
unfolding apply_all
apply_all-contents r q [] s apart through = refl
apply_all-contents r q (w ∷ ws) s apart through =
    apply_all-contents r q ws (apply w s) apart through.1 ∙ apply-contents r q w s apart through.0

module _ (copy_meta : ObjectMeta → ObjectMeta) (copy_condition : Condition → Condition)
    (meta_same : (m : ObjectMeta) → copy_meta m ≡ m)
    (condition_same : (c : Condition) → copy_condition c ≡ c) where
  pub copied-contents :
      (r : ServerObject) (s : Store)
      → (let copied = deep_copy_into_server copy_meta copy_condition r s in
          contents copied.1 copied.0 ≡ contents s r)
  unfolding deep_copy_into_server deep_copy_into_spec deep_copy_into_status
  copied-contents r s =
      rw
        (
          meta_same r.meta,
          elements-copy_slice (λ t. t) r.spec.tools s.tools (λ t. refl),
          elements-copy_slice (λ a. a) r.spec.allowed_service_accounts s.accounts (λ a. refl),
          elements-copy_slice copy_condition r.status.conditions s.conditions condition_same,
        )
        refl

  pub kept-contents :
      (r q : ServerObject) (s : Store)
      → IsStored s q
      → contents (deep_copy_into_server copy_meta copy_condition r s).1 q ≡ contents s q
  unfolding deep_copy_into_server deep_copy_into_spec deep_copy_into_status
  kept-contents r q s stored =
      rw
        (
          copy_slice-elements (λ t. t) r.spec.tools s.tools q.spec.tools stored.tools,
          copy_slice-elements (λ a. a) r.spec.allowed_service_accounts s.accounts
              q.spec.allowed_service_accounts stored.accounts,
          copy_slice-elements copy_condition r.status.conditions s.conditions q.status.conditions
              stored.conditions,
        )
        refl

  pub copied-IsApart :
      (r q : ServerObject) (s : Store)
      → IsStored s q
      → IsApart q (deep_copy_into_server copy_meta copy_condition r s).0
  unfolding deep_copy_into_server deep_copy_into_spec deep_copy_into_status
  copied-IsApart r q s stored = record {
    tools = λ p. copy_slice-apart (λ t. t) r.spec.tools s.tools q.spec.tools p stored.tools;
    accounts = λ p.
        copy_slice-apart (λ a. a) r.spec.allowed_service_accounts s.accounts
          q.spec.allowed_service_accounts p stored.accounts;
    conditions = λ p.
        copy_slice-apart copy_condition r.status.conditions s.conditions q.status.conditions p
          stored.conditions;
  }

  -- If the deep copies of `ObjectMeta` and `Condition` say what their originals do, and the arrays of a
  -- server are in the store: whatever is then assigned through the slices of the server, its deep copy says
  -- what the server said when it was copied; and whatever is assigned through those of the copy, the server
  -- says what it said.
  pub deep_copy_into_server-isolated :
      (r : ServerObject) (s : Store) (ws vs : List Write)
      → IsStored s r
      → All (Through r) ws
      → All (Through (deep_copy_into_server copy_meta copy_condition r s).0) vs
      → (let copied = deep_copy_into_server copy_meta copy_condition r s in
          (contents (apply_all ws copied.1) copied.0 ≡ contents s r)
          × (contents (apply_all vs copied.1) r ≡ contents s r))
  deep_copy_into_server-isolated r s ws vs stored of_server of_copy =
      let copied = deep_copy_into_server copy_meta copy_condition r s in
      let apart = copied-IsApart r r s stored in
      (
        apply_all-contents r copied.0 ws copied.1 apart of_server ∙ copied-contents r s,
        apply_all-contents copied.0 r vs copied.1 (flipped apart) of_copy
            ∙ kept-contents r r s stored,
      )
