-- ===== src/Examples/Connections.antt =====
-- A pool with one connection, as the repository has it.
use codechiev.Common.{ℕ, suc, ◌≡◌, refl, true, false, some, [], ◌∷◌, arith, negsuc}
use codechiev.Database.{
  Manager, begin, exec_params, failure, null, freed, query, take_free, exec, return_db,
}
use codechiev.Database.Pool.{free_count, AllOpen}
use codechiev.Database.Failures.{query-leaks}
use codechiev.Database.Lending.{
  Lending, Step, gets, executes, returns, here, done, goes, IsLent, Run-IsLent,
}
use codechiev.Database.Fields.{IntField}

abbrev pool : Manager
pool = record { dbs = record { connected = true; in_use = false } ∷ []; requests = [] }

abbrev used_pool : Manager
used_pool = record { dbs = record { connected = true; in_use = true } ∷ []; requests = [] }

query-leaks_example :
    (m' : Manager) × (i : ℕ) × (query failure (85 ∷ []) [] null pool ≡ some (freed, m'))
    × (m'.requests ≡ (i, exec_params (85 ∷ []) []) ∷ (i, begin) ∷ [])
    × (free_count pool.dbs ≡ suc (free_count m'.dbs))
    × AllOpen m'.dbs
query-leaks_example = query-leaks pool failure (85 ∷ []) [] null (refl, tt) (omega arith) refl

abbrev lending : Lending
lending = record { manager = pool; held = [] }

abbrev lent : Lending
lent = record { manager = used_pool; held = 0 ∷ [] }

abbrev asked : Lending
asked = record {
  manager = record { dbs = used_pool.dbs; requests = (0, exec_params (85 ∷ []) []) ∷ [] };
  held = 0 ∷ [];
}

abbrev given_back : Lending
given_back = record {
  manager = record { dbs = pool.dbs; requests = (0, exec_params (85 ∷ []) []) ∷ [] };
  held = [];
}

get_step : Step lending lent
unfolding take_free
get_step = gets refl

execute_step : Step lent asked
unfolding exec
execute_step = executes (exec_params (85 ∷ []) []) here refl

return_step : Step asked given_back
unfolding return_db
return_step = returns here

get_again_step : Step given_back asked
unfolding take_free
get_again_step = gets refl

Run-IsLent_example : IsLent asked
Run-IsLent_example =
    Run-IsLent (goes get_step (goes execute_step (goes return_step (goes get_again_step done))))
      (tt, tt)

abbrev negative : IntField
negative = record { value = negsuc 41; netval = 0 }
