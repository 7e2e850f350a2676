-- ===== src/Benchmark/Errors/Categories.antt =====
-- The categories that a report can show in place of an error.
use portkeeper.Common.{
  ℕ, String, Bool, true, false, ◌||◌, ◌≡◌, refl, List, [], ◌∷◌, Option, none, some, ◌==◌,
  if◌then◌else◌, leb, nat_equal, string_equal, any, Bool-cases, inl, inr,
}
use portkeeper.Common.Int.{ℤ}
use portkeeper.Benchmark.Errors.{
  CallError, ContextState, benchmark_error, by_net, by_rpc, is_deadline, is_canceled,
}

abbrev pub categories : List String
categories =
    "deadline" ∷ "cancelled" ∷ "http_401" ∷ "http_403" ∷ "http_429" ∷ "http_5xx" ∷ "http_other"
    ∷ "unexpected_eof" ∷ "eof" ∷ "jsonrpc_error" ∷ "transport_timeout" ∷ "transport"
    ∷ "protocol_or_transport" ∷ []

record IsListed (c : String) : Type 0 where
  listed : any (λ k. k == c) categories ≡ true

choose : {x y : String} (b : Bool) → IsListed x → IsListed y → IsListed (if b then x else y)
choose true h k = h
choose false h k = k

by_net-IsListed : (t : Option Bool) → IsListed (by_net t)
unfolding by_net
by_net-IsListed none = record { listed = refl }
by_net-IsListed (some timeout) =
    choose timeout (record { listed = refl }) (record { listed = refl })

by_rpc-IsListed : (t : Option Bool) (code : Option ℤ) → IsListed (by_rpc t code)
unfolding by_rpc
by_rpc-IsListed t none = by_net-IsListed t
by_rpc-IsListed t (some c) = record { listed = refl }

benchmark_error-IsListed :
    (ctx : ContextState) (err : CallError) (status : ℕ) → IsListed (benchmark_error ctx err status)
unfolding benchmark_error
benchmark_error-IsListed ctx err status =
    choose (err.deadline_exceeded || is_deadline ctx) (record { listed = refl })
      (choose (err.canceled || is_canceled ctx) (record { listed = refl })
        (choose (status == 401) (record { listed = refl })
          (choose (status == 403) (record { listed = refl })
            (choose (status == 429) (record { listed = refl })
              (choose (leb 500 status) (record { listed = refl })
                (choose (leb 300 status) (record { listed = refl })
                  (choose err.unexpected_eof (record { listed = refl })
                    (choose err.eof (record { listed = refl })
                      (by_rpc-IsListed err.net_timeout err.rpc_code)))))))))

-- Whatever the error, the context and the status, the category is one of 13 fixed texts.
pub benchmark_error-categories :
    (ctx : ContextState) (err : CallError) (status : ℕ)
    → any (λ k. k == benchmark_error ctx err status) categories ≡ true
benchmark_error-categories ctx err status = (benchmark_error-IsListed ctx err status).listed

pub benchmark_error-ne :
    (ctx : ContextState) (err : CallError) (status : ℕ)
    → (benchmark_error ctx err status == "") ≡ false
benchmark_error-ne ctx err status = elim (Bool-cases (benchmark_error ctx err status == "")) [
  | inr fine ↦ fine
  | inl blank ↦
      let e : benchmark_error ctx err status ≡ "" = (string_equal.equal_iff _ _).0 blank in
      cc (rw e at (benchmark_error-categories ctx err status))
]
