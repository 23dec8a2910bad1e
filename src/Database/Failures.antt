-- ===== src/Database/Failures.antt =====
-- What is left behind by a statement that fails.
use codechiev.Common.{
  ℕ, zero, suc, ◌<◌, ◌≡◌, refl, sym, true, false, Option, none, some, List, [], ◌∷◌, arith, inl,
  inr, ◌>>=◌, Bool-cases,
}
use mathlib.Core.Path.{subst}
use codechiev.Internet.Bytes.{Endian}
use codechiev.Database.{
  Psql, Manager, begin, exec_params, Status, is_command_ok, Result, null, freed, at, set_closed,
  free_all, query, query_by_id, close_all, close, update, delete_by_id,
}
use codechiev.Database.Pool.{free_count, AllOpen, set_used-AllOpen}
use codechiev.Database.Statements.{
  Takes, AllOpen-Takes, unfinished, query-unfinished, query_by_id-unfinished,
}

lent-AllOpen : (m : Manager) (t : Takes m) → AllOpen m.dbs → AllOpen t.dbs
lent-AllOpen m t all_open =
    subst AllOpen (sym t.lends.taken) (set_used-AllOpen true t.index m.dbs all_open)

-- If all connections are open and one is free, a `query` whose statement fails leaves the
-- connection in use, so that one less is free, and has sent BEGIN and the statement without END.
pub query-leaks :
    (m : Manager) (status : Status) (sql : List ℕ) (values : List (List ℕ)) (result : Result)
    → AllOpen m.dbs
    → 0 < free_count m.dbs
    → is_command_ok status ≡ false
    → (m' : Manager) × (i : ℕ) × (query status sql values result m ≡ some (freed, m'))
      × (m'.requests ≡ (i, exec_params sql values) ∷ (i, begin) ∷ m.requests)
      × (free_count m.dbs ≡ suc (free_count m'.dbs))
      × AllOpen m'.dbs
query-leaks m status sql values result all_open some_free bad =
    let t = AllOpen-Takes m all_open some_free in
    (
      unfinished m t sql values,
      t.index,
      query-unfinished m t status sql values result bad,
      refl,
      t.lends.one_less,
      lent-AllOpen m t all_open,
    )

-- The same statement, again and again.
unfoldable pub query_times : ℕ → Status → List ℕ → List (List ℕ) → Manager → Option Manager
query_times zero status sql values m = some m
query_times (suc n) status sql values m = do
  (_, m') ← query status sql values null m
  query_times n status sql values m'

-- If all connections are open, as many failing `query` calls as there are free connections leave
-- none free.
pub query_times-exhausts :
    (n : ℕ) (m : Manager) (status : Status) (sql : List ℕ) (values : List (List ℕ))
    → AllOpen m.dbs
    → free_count m.dbs ≡ n
    → is_command_ok status ≡ false
    → (m' : Manager) × (query_times n status sql values m ≡ some m') × (free_count m'.dbs ≡ 0)
unfolding query_times
query_times-exhausts zero m status sql values all_open count bad = (m, refl, count)
query_times-exhausts (suc n) m status sql values all_open count bad =
    let (m₁, i, done, _, one_less, open₁) =
      query-leaks m status sql values null all_open (omega (arith, count)) bad in
    let (m', later, full) =
      query_times-exhausts n m₁ status sql values open₁ (omega (arith, count, one_less)) bad in
    (m', rw done later, full)

-- If all connections are open and one is free, `update` and `DeleteById` use freed memory when
-- their statement fails: they clear the result a second time.
pub update-frees_twice :
    (m : Manager) (status : Status) (sql : List ℕ) (values : List (List ℕ)) (e : Endian) (id : ℕ)
    → AllOpen m.dbs
    → 0 < free_count m.dbs
    → is_command_ok status ≡ false
    → (update status sql values m ≡ none) × (delete_by_id status sql e id m ≡ none)
unfolding update delete_by_id free_all
update-frees_twice m status sql values e id all_open some_free bad =
    let t = AllOpen-Takes m all_open some_free in
    (
      rw (query-unfinished m t status sql values null bad) refl,
      rw (query_by_id-unfinished m t status sql e id null bad) refl,
    )

close_all-closed :
    (i : ℕ) (dbs : List Psql) (db : Psql) → at i dbs ≡ some db → close_all (set_closed i dbs) ≡ none
unfolding close_all
close_all-closed i [] db e = ground (arith, e)
close_all-closed zero (d ∷ dbs) db e = refl
close_all-closed (suc i) (d ∷ dbs) db e = elim (Bool-cases d.connected) [
  | inl yes_open ↦ rw (yes_open, close_all-closed i dbs db e) refl
  | inr closed ↦ rw closed refl
]

-- If all connections are open and one is free, a `queryById` whose statement fails frees a
-- connection that stays in the pool, and closing the pool then frees it again.
pub query_by_id-closes_twice :
    (m : Manager) (status : Status) (sql : List ℕ) (e : Endian) (id : ℕ) (result : Result)
    → AllOpen m.dbs
    → 0 < free_count m.dbs
    → is_command_ok status ≡ false
    → (m' : Manager) × (query_by_id status sql e id result m ≡ some (freed, m')) × (close m' ≡ none)
unfolding close
query_by_id-closes_twice m status sql e id result all_open some_free bad =
    let t = AllOpen-Takes m all_open some_free in
    (
      _,
      query_by_id-unfinished m t status sql e id result bad,
      rw (close_all-closed t.index t.dbs _ t.lends.is_used) refl,
    )
