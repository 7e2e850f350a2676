-- ===== src/Api/Examples.antt =====
-- A server with two tools in memory, copied, and then changed.
use portkeeper.Common.{
  ℕ, ◌≡◌, refl, false, none, some, List, [], ◌∷◌, if◌then◌else◌, ◌==◌, nat_equal, arith, All,
}
use portkeeper.Common.Int.{pos}
use portkeeper.Api.{Condition}
use portkeeper.Api.Memory.{Slice, Memory, allocate, assign, elements, copy_slice}
use portkeeper.Api.DeepCopy.{
  ServerObject, Store, deep_copy_into_server, deep_copy_into_spec, deep_copy_into_status,
}
use portkeeper.Api.DeepCopy.Isolation.{
  contents, IsStored, Write, to_tool, to_condition, apply_all, Through,
  deep_copy_into_server-isolated,
}

abbrev ready_now : Condition
ready_now = record {
  kind = "Ready";
  status = "True";
  observed_generation = pos 1;
  reason = "Available";
  message = "";
}

abbrev one_array {ℓ} : {A : Type ℓ} → List A → Memory A
one_array xs = record { next = 1; array = λ p. if p == 0 then xs else [] }

abbrev small_store : Store
small_store = record {
  tools = one_array ("read_runbook" ∷ "stream_runbook" ∷ []);
  accounts = one_array [];
  conditions = one_array (ready_now ∷ []);
}

abbrev first_array : ℕ → Slice
first_array n = record { address = 0; len = n }

abbrev runbooks : ServerObject
runbooks = record {
  type_meta = record { kind = "MCPServer"; api_version = "mcp.portkeeper.dev/v1alpha1" };
  meta = record {
    namespace = "demo";
    name = "runbooks";
    uid = "u1";
    generation = pos 1;
    deleting = false;
  };
  spec = record {
    image = "runbooks:1";
    port = pos 9001;
    tools = some (first_array 2);
    allowed_service_accounts = none;
    auth_type = "none";
    auth_secret_ref = "";
  };
  status = record {
    phase = "Ready";
    observed_generation = pos 1;
    conditions = some (first_array 1);
  };
}

abbrev stale : Condition
stale = record ready_now { status = "False" }

-- The condition is replaced in place, as `SetStatusCondition` does, and a tool is renamed.
abbrev changes : (address : ℕ) → List Write
changes p = to_condition p 0 stale ∷ to_tool p 1 "other" ∷ []

abbrev copied : ServerObject × Store
copied = deep_copy_into_server (λ m. m) (λ c. c) runbooks small_store

runbooks-IsStored : IsStored small_store runbooks
runbooks-IsStored = record { tools = omega arith; accounts = tt; conditions = omega arith }

-- The copies are in the second arrays.
changed :
    ((contents (apply_all (changes 0) copied.1) runbooks).1.status.conditions ≡ stale ∷ [])
    × ((contents (apply_all (changes 1) copied.1) copied.0).1.spec.tools
        ≡ "read_runbook" ∷ "other" ∷ [])
unfolding apply_all deep_copy_into_server deep_copy_into_spec deep_copy_into_status copy_slice
    allocate elements assign
changed = (refl, refl)

changes-Through : All (Through copied.0) (changes 1)
unfolding deep_copy_into_server deep_copy_into_spec deep_copy_into_status copy_slice
changes-Through = (refl, (refl, tt))

deep_copy_into_server-isolated_example :
    (contents (apply_all (changes 0) copied.1) copied.0 ≡ contents small_store runbooks)
    × (contents (apply_all (changes 1) copied.1) runbooks ≡ contents small_store runbooks)
deep_copy_into_server-isolated_example =
    deep_copy_into_server-isolated (λ m. m) (λ c. c) (λ m. refl) (λ c. refl) runbooks small_store
      (changes 0) (changes 1) runbooks-IsStored (refl, (refl, tt)) changes-Through
