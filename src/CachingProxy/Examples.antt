-- ===== src/CachingProxy/Examples.antt =====
-- The cache at concrete inputs: a Redis that keeps one entry, and numbers that are a text.
use campusops.Common.{
  ◌≡◌, refl, ◌⊎◌, inl, String, Bool, true, false, Option, none, some, str_eq, str_eq_iff,
  if◌then◌else◌,
}
use campusops.Common.Exec.{ok}
use campusops.Service.{IncidentRepo}
use campusops.CachingProxy.{Redis, Json, StatsRepo, proxy, invalidate}
use campusops.CachingProxy.Coherence.{Answers, IsCoherent, proxy_refines, invalidate_restores}

-- The entry that the cache holds, if any, and the numbers of every department.
pub record Shop : Type 0 where
  pub entry : Option (String × String)
  pub numbers : String

entry_at : Option (String × String) → String → Option String
entry_at none k = none
entry_at (some (l, v)) k = if str_eq k l then some v else none

drop_entry : Option (String × String) → String → Option (String × String)
drop_entry none k = none
drop_entry (some (l, v)) k = if str_eq k l then none else some (l, v)

abbrev cached : Shop → String → Option String
cached s k = entry_at s.entry k

abbrev truth : Shop → String → String
truth s d = s.numbers

abbrev small_redis : Redis Shop
small_redis = record {
  get = λ k s. (ok (entry_at s.entry k), s);
  setex = λ k n v s. (ok tt, record s { entry = some (k, v) });
  del = λ k s. (ok 1, record s { entry = drop_entry s.entry k });
}

abbrev verbatim : Json String
verbatim = record { stringify = λ a. a; parse = λ v. ok v }

abbrev no_repo : IncidentRepo Shop
no_repo = record {
  queries = record {
    find_duplicates = λ l c h s. (ok none, s);
    increment_duplicate_count = λ i s. (ok tt, s);
    count_recent_by_user = λ u w s. (ok 0, s);
  };
  find_by_id = λ id s. (ok none, s);
  save = λ i s. (ok "I1", s);
}

abbrev counts : StatsRepo Shop String
counts = record { repo = no_repo; get_dashboard_stats = λ d s. (ok s.numbers, s) }

drop_one :
    (b : Bool) (m w l v : String)
    → entry_at (if b then none else some (m, w)) l ≡ some v
    → entry_at (some (m, w)) l ≡ some v
unfolding entry_at
drop_one true m w l v h = cc
drop_one false m w l v h = h

drop_entries :
    (o : Option (String × String)) (k l v : String)
    → entry_at (drop_entry o k) l ≡ some v
    → entry_at o l ≡ some v
unfolding drop_entry
drop_entries none k l v h = h
drop_entries (some (m, w)) k l v h = drop_one (str_eq k m) m w l v h

dropped_one :
    (b : Bool) (m w k : String)
    → str_eq k m ≡ b
    → entry_at (if b then none else some (m, w)) k ≡ none
unfolding entry_at
dropped_one true m w k e = refl
dropped_one false m w k e = rw e refl

dropped : (o : Option (String × String)) (k : String) → entry_at (drop_entry o k) k ≡ none
unfolding entry_at drop_entry
dropped none k = refl
dropped (some (m, w)) k = dropped_one (str_eq k m) m w k refl

set_one :
    (b : Bool) (k v l x : String) {P : Type 0}
    → str_eq l k ≡ b
    → (if b then some v else none) ≡ some x
    → ((l ≡ k) × (x ≡ v)) ⊎ P
set_one true k v l x e h = inl ((str_eq_iff l k).0 e, cc)
set_one false k v l x e h = cc

set_entry :
    (k v l x : String) (o : Option (String × String))
    → entry_at (some (k, v)) l ≡ some x
    → ((l ≡ k) × (x ≡ v)) ⊎ (entry_at o l ≡ some x)
unfolding entry_at
set_entry k v l x o h = set_one (str_eq l k) k v l x refl h

small_redis-Answers : Answers small_redis verbatim counts cached truth
small_redis-Answers = record {
  reads = λ k s. (record { entries = λ l v h. h; answers = λ d. refl }, λ v h. cc);
  writes = λ k v n s. (λ d. refl, λ l x h. set_entry k v l x s.entry h);
  deletes = λ k s. (
    record { entries = λ l v h. drop_entries s.entry k l v h; answers = λ d. refl },
    λ n h. dropped s.entry k,
  );
  encodes = λ a. refl;
  tells = λ d s. refl;
}

abbrev shop : Shop
shop = record { entry = none; numbers = "3 open" }

shop-IsCoherent : IsCoherent small_redis verbatim counts cached truth shop
unfolding entry_at
shop-IsCoherent d v a h p = cc

proxy_refines_example :
    (u : Shop) × ((proxy small_redis verbatim counts).get_dashboard_stats "D1" shop
      ≡ (ok "3 open", u))
    × (counts.get_dashboard_stats "D1" shop ≡ (ok "3 open", shop))
    × IsCoherent small_redis verbatim counts cached truth u
    × ((e : String) → truth u e ≡ "3 open")
proxy_refines_example =
    proxy_refines small_redis verbatim counts cached truth small_redis-Answers "D1" shop
      shop-IsCoherent

invalidate_restores_example :
    IsCoherent small_redis verbatim counts cached truth
      (invalidate small_redis verbatim "D1" shop).1
    × ((e : String) → truth (invalidate small_redis verbatim "D1" shop).1 e ≡ "3 open")
invalidate_restores_example =
    invalidate_restores small_redis verbatim counts cached truth small_redis-Answers "D1" shop shop
      1 shop-IsCoherent (λ k v h. h) (λ e apart. refl) refl
