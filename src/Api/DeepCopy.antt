-- ===== src/Api/DeepCopy.antt =====
-- api/v1alpha1/zz_generated.deepcopy.go: the objects with their slices in memory, and the copies that are
-- made of them. An object that `new` makes is a value, and a nil pointer is `none`. The deep copies of
-- the parts that stand in k8s.io/apimachinery are parameters.
pub mod Isolation
pub mod Among
pub mod Lists
use portkeeper.Common.{ℕ, ◌≡◌, String, Option, none, some, List, [], ◌∷◌}
use portkeeper.Common.Int.{ℤ}
use portkeeper.Api.{ServiceAccountReference, Condition, ObjectMeta}
use portkeeper.Api.Memory.{Slice, Memory, allocate, elements, copy_slice}

pub record TypeMeta : Type 0 where
  pub kind : String
  pub api_version : String

pub record SpecObject : Type 0 where
  pub image : String
  pub port : ℤ
  pub tools : Option Slice
  pub allowed_service_accounts : Option Slice
  pub auth_type : String
  pub auth_secret_ref : String

pub record StatusObject : Type 0 where
  pub phase : String
  pub observed_generation : ℤ
  pub conditions : Option Slice

pub record ServerObject : Type 0 where
  pub type_meta : TypeMeta
  pub meta : ObjectMeta
  pub spec : SpecObject
  pub status : StatusObject

-- `L` is `metav1.ListMeta`.
pub record ServerListObject (L : Type 0) : Type 0 where
  pub type_meta : TypeMeta
  pub list_meta : L
  pub items : Option Slice

pub record Store : Type 0 where
  pub tools : Memory String
  pub accounts : Memory ServiceAccountReference
  pub conditions : Memory Condition

unfoldable pub deep_copy_into_spec : SpecObject → Store → SpecObject × Store
deep_copy_into_spec r s =
    let tools = copy_slice (λ t. t) r.tools s.tools in
    let accounts = copy_slice (λ a. a) r.allowed_service_accounts s.accounts in
    (
      record r { tools = tools.0; allowed_service_accounts = accounts.0 },
      record s { tools = tools.1; accounts = accounts.1 },
    )

-- `DeepCopy` by `DeepCopyInto`: a nil pointer gives a nil pointer.
abbrev pub new_copy : {A S : Type 0} → (A → S → A × S) → Option A → S → Option A × S
new_copy copy_into none s = (none, s)
new_copy copy_into (some r) s = let copied = copy_into r s in (some copied.0, copied.1)

-- The runtime.Object of a pointer, which is nil if the pointer is.
abbrev pub as_object : {A : Type 0} → Option A → Option A
as_object none = none
as_object (some r) = some r

abbrev pub deep_copy_spec : Option SpecObject → Store → Option SpecObject × Store
deep_copy_spec r s = new_copy deep_copy_into_spec r s

abbrev pub deep_copy_into_reference :
    ServiceAccountReference → Store → ServiceAccountReference × Store
deep_copy_into_reference r s = (r, s)

abbrev pub deep_copy_reference :
    Option ServiceAccountReference → Store → Option ServiceAccountReference × Store
deep_copy_reference r s = new_copy deep_copy_into_reference r s

module _ (copy_condition : Condition → Condition) where
  unfoldable pub deep_copy_into_status : StatusObject → Store → StatusObject × Store
  deep_copy_into_status r s =
      let conditions = copy_slice copy_condition r.conditions s.conditions in
      (record r { conditions = conditions.0 }, record s { conditions = conditions.1 })

  abbrev pub deep_copy_status : Option StatusObject → Store → Option StatusObject × Store
  deep_copy_status r s = new_copy deep_copy_into_status r s

module _ (copy_meta : ObjectMeta → ObjectMeta) (copy_condition : Condition → Condition) where
  unfoldable pub deep_copy_into_server : ServerObject → Store → ServerObject × Store
  deep_copy_into_server r s =
      let spec = deep_copy_into_spec r.spec s in
      let status = deep_copy_into_status copy_condition r.status spec.1 in
      (record r { meta = copy_meta r.meta; spec = spec.0; status = status.0 }, status.1)

  -- `DeepCopy`, and `DeepCopyObject`, of a server
  abbrev pub deep_copy_server : Option ServerObject → Store → Option ServerObject × Store
  deep_copy_server r s = new_copy deep_copy_into_server r s

  abbrev pub deep_copy_server_object : Option ServerObject → Store → Option ServerObject × Store
  deep_copy_server_object r s = let copied = deep_copy_server r s in (as_object copied.0, copied.1)

  unfoldable pub copy_items : List ServerObject → Store → List ServerObject × Store
  copy_items [] s = ([], s)
  copy_items (r ∷ rs) s =
      let first = deep_copy_into_server r s in
      let rest = copy_items rs first.1 in (first.0 ∷ rest.0, rest.1)

-- The arrays of servers stand in a memory of their own.
pub record Heap : Type 0 where
  pub servers : Memory ServerObject
  pub store : Store

module _ {L : Type 0} (copy_list_meta : L → L) (copy_meta : ObjectMeta → ObjectMeta)
    (copy_condition : Condition → Condition) where
  unfoldable pub deep_copy_into_list : ServerListObject L → Heap → ServerListObject L × Heap
  deep_copy_into_list r h = elim (r.items) [
    | none ↦ (record r { list_meta = copy_list_meta r.list_meta }, h)
    | some s ↦
        let copied = copy_items copy_meta copy_condition (elements h.servers (some s)) h.store in
        (
          record r {
            list_meta = copy_list_meta r.list_meta;
            items = some (record { address = h.servers.next; len = s.len });
          },
          record { servers = allocate h.servers copied.0; store = copied.1 },
        )
  ]

  abbrev pub deep_copy_list :
      Option (ServerListObject L) → Heap → Option (ServerListObject L) × Heap
  deep_copy_list r h = new_copy deep_copy_into_list r h

  abbrev pub deep_copy_list_object :
      Option (ServerListObject L) → Heap → Option (ServerListObject L) × Heap
  deep_copy_list_object r h = let copied = deep_copy_list r h in (as_object copied.0, copied.1)
