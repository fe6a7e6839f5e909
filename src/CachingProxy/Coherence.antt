-- ===== src/CachingProxy/Coherence.antt =====
-- The proxy answers as the repository behind it does.
-- `Answers` is what the code relies on of Redis and the repository: `cached` is what a key holds, and
-- `truth` what the repository would answer. An entry may vanish at any time. A command that fails may
-- or may not have had its effect, but a deletion that succeeds leaves no entry.
use Prim.Native.String.{◌++◌ as ◌+++◌}
use text.Mathlib.TextLemmas.{append_cancel_left, append_cancel_right}
use campusops.Common.{
  ℕ, ◌≡◌, ◌≢◌, refl, sym, ap, ◌∙◌, ◌⊎◌, inl, inr, String, Option, none, some, str_eq, str_eq_iff,
  Bool-cases,
}
use campusops.Common.Exec.{Result, ok, err}
use campusops.Errors.{Thrown}
use campusops.CachingProxy.{
  Redis, Json, StatsRepo, dept_stats_key, global_stats_key, parsed, hit, store_stats, answer,
  dashboard_stats_ttl_seconds, cached_stats, proxy, invalidate,
}

key_inj : (c d : String) → dept_stats_key c ≡ dept_stats_key d → c ≡ d
unfolding dept_stats_key
key_inj c d h =
    append_cancel_right c d ":stats"
      (append_cancel_left "cache:dashboard:dept:" (c +++ ":stats") (d +++ ":stats") h)

module _ {S A : Type 0} (redis : Redis S) (json : Json A) (real : StatsRepo S A)
    (cached : S → String → Option String) (truth : S → String → A) where
  -- `t` has no entry that `s` has not, and the same answers.
  pub record Fewer (s t : S) : Type 0 where
    pub entries : (k v : String) → cached t k ≡ some v → cached s k ≡ some v
    pub answers : (d : String) → truth t d ≡ truth s d

  pub record Answers : Type 0 where
    pub reads :
        (k : String) (s : S)
        → Fewer s (redis.get k s).1
          × ((v : String) → (redis.get k s).0 ≡ ok (some v) → cached s k ≡ some v)
    pub writes :
        (k v : String) (n : ℕ) (s : S)
        → ((d : String) → truth (redis.setex k n v s).1 d ≡ truth s d)
          × ((l x : String)
              → cached (redis.setex k n v s).1 l ≡ some x
              → ((l ≡ k) × (x ≡ v)) ⊎ (cached s l ≡ some x))
    pub deletes :
        (k : String) (s : S)
        → Fewer s (redis.del k s).1
          × ((n : ℕ) → (redis.del k s).0 ≡ ok n → cached (redis.del k s).1 k ≡ none)
    pub encodes : (a : A) → json.parse (json.stringify a) ≡ ok a
    pub tells : (d : String) (s : S) → real.get_dashboard_stats d s ≡ (ok (truth s d), s)

  -- Every entry of a department that can be read is what the repository would answer.
  abbrev pub IsCoherent : S → Type 0
  IsCoherent s =
      (d v : String) (a : A)
      → cached s (dept_stats_key d) ≡ some v
      → json.parse v ≡ ok a
      → a ≡ truth s d

  Fewer-IsCoherent : (s t : S) → Fewer s t → IsCoherent s → IsCoherent t
  Fewer-IsCoherent s t f c d v a e p =
      c d v a (f.entries (dept_stats_key d) v e) p ∙ sym (f.answers d)

  parsed_inv : (r : Result Thrown A) (a : A) → parsed r ≡ some a → r ≡ ok a
  parsed_inv (ok b) a h = cc
  parsed_inv (err e) a h = cc

  hit_inv :
      (r : Result Thrown (Option String)) (a : A)
      → hit json r ≡ some a
      → (v : String) × (r ≡ ok (some v)) × (json.parse v ≡ ok a)
  unfolding hit
  hit_inv (ok (some v)) a h = (v, refl, parsed_inv (json.parse v) a h)
  hit_inv (ok none) a h = cc
  hit_inv (err e) a h = cc

  -- What the repository answers is stored under its key, or is not.
  stored-IsCoherent :
      Answers
      → (d v : String) (n : ℕ) (s : S) → json.parse v ≡ ok (truth s d)
      → IsCoherent s
      → IsCoherent (redis.setex (dept_stats_key d) n v s).1
  stored-IsCoherent laws d v n s good c e w a held p =
      let (same, entries) = laws.writes (dept_stats_key d) v n s in
      elim (entries (dept_stats_key e) w held) [
        | inl (key, value) ↦
            let at : e ≡ d = key_inj e d key in
            let mine : a ≡ truth s d = cc in mine ∙ ap (truth s) (sym at) ∙ sym (same e)
        | inr old ↦ c e w a old p ∙ sym (same e)
      ]

  answered :
      Answers
      → (d : String) (o : Option A) (s t : S) → Fewer s t
      → IsCoherent s
      → ((a : A) → o ≡ some a → a ≡ truth s d)
      → (u : S) × (answer redis json real d o t ≡ (ok (truth s d), u))
        × IsCoherent u
        × ((e : String) → truth u e ≡ truth s e)
  unfolding answer store_stats
  answered laws d (some a) s t f c right =
      (t, rw (right a refl) refl, Fewer-IsCoherent s t f c, f.answers)
  answered laws d none s t f c right =
      let v = json.stringify (truth t d) in
      let key = dept_stats_key d in
      (
        (redis.setex key dashboard_stats_ttl_seconds v t).1,
        rw (laws.tells d t, f.answers d) refl,
        stored-IsCoherent laws d v dashboard_stats_ttl_seconds t (laws.encodes (truth t d))
            (Fewer-IsCoherent s t f c),
        λ e. (laws.writes key v dashboard_stats_ttl_seconds t).0 e ∙ f.answers e,
      )

  -- While the entries of the cache are what the repository would answer, the proxy answers every
  -- department as the repository does, whether the commands of Redis succeed or fail, and the entries
  -- stay so.
  pub proxy_refines :
      Answers
      → (d : String) (s : S) → IsCoherent s
      → (u : S) × ((proxy redis json real).get_dashboard_stats d s ≡ (ok (truth s d), u))
        × (real.get_dashboard_stats d s ≡ (ok (truth s d), s))
        × IsCoherent u
        × ((e : String) → truth u e ≡ truth s e)
  unfolding cached_stats
  proxy_refines laws d s c =
      let (fewer, held) = laws.reads (dept_stats_key d) s in
      let result = redis.get (dept_stats_key d) s in
      let right : (a : A) → hit json result.0 ≡ some a → a ≡ truth s d =
        λ a h. let (v, got, p) = hit_inv result.0 a h in c d v a (held v got) p in
      let (u, same, good, kept) = answered laws d (hit json result.0) s result.1 fewer c right in
      (u, same, laws.tells d s, good, kept)

  -- After a change to the incidents of one department, invalidating that department makes the entries
  -- again what the repository would answer, when Redis deletes its key.
  pub invalidate_restores :
      Answers
      → (d : String) (s t : S) (n : ℕ) → IsCoherent s
      → ((k v : String) → cached t k ≡ some v → cached s k ≡ some v)
      → ((e : String) → e ≢ d → truth t e ≡ truth s e)
      → (redis.del (dept_stats_key d) t).0 ≡ ok n
      → IsCoherent (invalidate redis json d t).1
        × ((e : String) → truth (invalidate redis json d t).1 e ≡ truth t e)
  unfolding invalidate
  invalidate_restores laws d s t n c kept others done =
      let (first, gone) = laws.deletes (dept_stats_key d) t in
      let (second, _) = laws.deletes global_stats_key (redis.del (dept_stats_key d) t).1 in
      (
        λ e v a held p.
            let before = second.entries (dept_stats_key e) v held in
            elim (Bool-cases (str_eq e d)) [
              | inl same ↦
                  let at : e ≡ d = (str_eq_iff e d).0 same in
                  let there : cached (redis.del (dept_stats_key d) t).1 (dept_stats_key d)
                      ≡ some v =
                    sym (ap (λ z. cached (redis.del (dept_stats_key d) t).1 (dept_stats_key z)) at)
                    ∙ before in
                  let absent = gone n done in cc
              | inr other ↦
                  let apart : e ≢ d = λ h. let yes = (str_eq_iff e d).1 h in cc in
                  let old = kept (dept_stats_key e) v (first.entries (dept_stats_key e) v before) in
                  c e v a old p
                  ∙ sym (others e apart)
                  ∙ sym (first.answers e)
                  ∙ sym (second.answers e)
            ],
        λ e. second.answers e ∙ first.answers e,
      )
