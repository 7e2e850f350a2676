-- ===== src/Gateway/Accounts/Inflight.antt =====
-- The bound on the reviews under way, over every interleaving of the calls.
use portkeeper.Common.{ℕ, suc, ◌-◌, ◌≤◌, ◌<◌, ◌≡◌, none, some, arith}
use portkeeper.Gateway.Accounts.{ServiceAccountAuthenticator, max_inflight, enter, leave}

-- The authenticator, and how many calls stand between their send and their receive.
pub record Pool : Type 0 where
  pub state : ServiceAccountAuthenticator
  pub reviewing : ℕ

-- A call passes the send, is turned away, or returns.
pub data Step (p : Pool) : Pool → Type 0 where
  begin :
      (a : ServiceAccountAuthenticator)
      → enter p.state ≡ some a
      → Step p (record { state = a; reviewing = suc p.reviewing })
  turn_away : enter p.state ≡ none → Step p p
  finish : 0 < p.reviewing → Step p (record { state = leave p.state; reviewing = p.reviewing - 1 })

pub data Reach (p : Pool) : Pool → Type 0 where
  here : Reach p p
  next : {q r : Pool} → Reach p q → Step q r → Reach p r

pub record IsCounted (p : Pool) : Type 0 where
  pub counted : p.state.inflight ≡ p.reviewing
  pub bounded : p.reviewing ≤ max_inflight

Step-IsCounted : {p q : Pool} → Step p q → IsCounted p → IsCounted q
unfolding enter leave
Step-IsCounted (begin a e) v = ground arith
Step-IsCounted (turn_away e) v = v
Step-IsCounted (finish h) v = ground arith

-- However the calls interleave, the channel counts the reviews under way, and these are 32 at most.
pub Reach-IsCounted : {p q : Pool} → IsCounted p → Reach p q → IsCounted q
Reach-IsCounted v here = v
Reach-IsCounted v (next r s) = Step-IsCounted s (Reach-IsCounted v r)
