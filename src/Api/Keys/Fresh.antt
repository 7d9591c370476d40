-- ===== src/Api/Keys/Fresh.antt =====
-- How long an answer about a key is believed (`requireAuth` of internal/proxy/http_api.go).
use sair.Base.{
  ℕ, ◌+◌, ◌≤◌, ◌<◌, ◌≡◌, refl, sym, ap, ◌∙◌, subst, ◌⊎◌, inl, inr, Bool, true, false, Option, none,
  some, List, [], ◌∷◌, arith, ltb, if◌then◌else◌, ltb→lt, Bool-cases, All,
}
use sair.Text.{Bytes, str_eq, str_eq_iff}
use sair.Devices.Tracker.{lookup, store}
use sair.Api.{Request, Config, KeyAnswer, KeyCache}
use sair.Api.Params.{blank}
use sair.Api.Keys.{
  key_cache_ttl, remember, recall, is_listed, check_cached, check_asking, require_auth,
}

module _ (c : Config) where
  -- The orchestrator said so of the key, at most 30 s ago.
  pub record SaidBefore (now : ℕ) (key : Bytes) (ok : Bool) : Type 0 where
    pub ask : ℕ → Bytes → List Bytes → Option Bool
    pub asked : ℕ
    pub asks : c.check_key ≡ some ask
    pub answer : ask asked key c.guest_keys ≡ some ok
    pub past : asked ≤ now

  abbrev IsKept : ℕ → Bytes × KeyAnswer → Type 0
  IsKept now (key, a) =
      (said : SaidBefore now key a.accepted) × (a.until ≡ said.asked + key_cache_ttl)

  -- Every kept answer was given, and runs out 30 s after it.
  abbrev pub IsGenuine : ℕ → KeyCache → Type 0
  IsGenuine now cache = All (IsKept now) cache

  later-said :
      {now later : ℕ} {key : Bytes} {ok : Bool}
      → now ≤ later
      → SaidBefore now key ok
      → SaidBefore later key ok
  later-said h s = record {
    ask = s.ask;
    asked = s.asked;
    asks = s.asks;
    answer = s.answer;
    past = omega (arith, s.past);
  }

  IsGenuine-later :
      (now later : ℕ) (cache : KeyCache) → now ≤ later → IsGenuine now cache → IsGenuine later cache
  unfolding later-said
  IsGenuine-later now later [] h g = tt
  IsGenuine-later now later ((k, a) ∷ cache) h g =
      ((later-said h g.0.0, g.0.1), IsGenuine-later now later cache h g.1)

  IsGenuine-store :
      (now : ℕ) (k : Bytes) (a : KeyAnswer) (cache : KeyCache)
      → IsKept now (k, a)
      → IsGenuine now cache
      → IsGenuine now (store k a cache)
  unfolding store
  IsGenuine-store now k a [] kept g = (kept, tt)
  IsGenuine-store now k a ((k', a') ∷ cache) kept g = elim (Bool-cases (str_eq k' k)) [
    | inl same ↦ rw same (kept, g.1)
    | inr other ↦ rw other (g.0, IsGenuine-store now k a cache kept g.1)
  ]

  IsKept-lookup :
      (now : ℕ) (k : Bytes) (cache : KeyCache) {a : KeyAnswer}
      → IsGenuine now cache
      → lookup k cache ≡ some a
      → IsKept now (k, a)
  unfolding lookup
  IsKept-lookup now k [] g h = cc
  IsKept-lookup now k ((k', a') ∷ cache) {a} g h = elim (Bool-cases (str_eq k' k)) [
    | inl same ↦
        let found : a' ≡ a = ground (arith, h, same) in
        subst (λ x. IsKept now (k, x)) found
          (subst (λ x. IsKept now (x, a')) ((str_eq_iff k' k).0 same) g.0)
    | inr other ↦ IsKept-lookup now k cache g.1 (ground (arith, h, other))
  ]

  -- Whose key is let in: a listed one, or one that the orchestrator has vouched for in the last 30 s.
  abbrev pub IsVouched : ℕ → Bytes → Type 0
  IsVouched now key =
      (is_listed c key ≡ true)
      ⊎ ((said : SaidBefore now key true) × (now < said.asked + key_cache_ttl))

  abbrev Sound : ℕ → Bytes → Bool × KeyCache → Type 0
  Sound now key res = IsGenuine now res.1 × (res.0 ≡ true → IsVouched now key)

  Sound-refused :
      (now : ℕ) (key : Bytes) (cache : KeyCache)
      → IsGenuine now cache
      → Sound now key (false, cache)
  Sound-refused now key cache g = (g, λ h. cc)

  Sound-remember :
      (now : ℕ) (key : Bytes) (ask : ℕ → Bytes → List Bytes → Option Bool) (o : Option Bool)
      (cache : KeyCache)
      → c.check_key ≡ some ask
      → ask now key c.guest_keys ≡ o
      → IsGenuine now cache
      → Sound now key (remember now key o cache)
  unfolding remember
  Sound-remember now key ask none cache e a g = Sound-refused now key cache g
  Sound-remember now key ask (some ok) cache e a g =
      let said : SaidBefore now key ok = record {
        ask = ask;
        asked = now;
        asks = e;
        answer = a;
        past = omega arith;
      } in
      (
        IsGenuine-store now key _ cache (said, refl) g,
        λ h. inr (
          record { ask = ask; asked = now; asks = e; answer = a ∙ ap some h; past = omega arith },
          omega arith,
        ),
      )

  recalled :
      (now : ℕ) (o : Option KeyAnswer) {a : KeyAnswer}
      → recall now o ≡ some a
      → (o ≡ some a) × (now < a.until)
  unfolding recall
  recalled now none h = cc
  recalled now (some b) {a} h = elim (Bool-cases (ltb now b.until)) [
    | inl fresh ↦
        let same : b ≡ a = ground (arith, h, fresh) in
        subst (λ x. (some b ≡ some x) × (now < x.until)) same (refl, ltb→lt _ _ fresh)
    | inr stale ↦ ground (arith, h, stale)
  ]

  Sound-cached :
      (now : ℕ) (key : Bytes) (ask : ℕ → Bytes → List Bytes → Option Bool) (o : Option KeyAnswer)
      (cache : KeyCache)
      → c.check_key ≡ some ask
      → recall now (lookup key cache) ≡ o
      → IsGenuine now cache
      → Sound now key (check_cached c now key ask o cache)
  unfolding check_cached
  Sound-cached now key ask none cache e r g = Sound-remember now key ask _ cache e refl g
  Sound-cached now key ask (some a) cache e r g =
      let (found, fresh) = recalled now (lookup key cache) r in
      let (said, ends) = IsKept-lookup now key cache g found in
      (
        g,
        λ h. inr (
          record {
            ask = said.ask;
            asked = said.asked;
            asks = said.asks;
            answer = said.answer ∙ ap some h;
            past = said.past;
          },
          omega (arith, fresh, ends),
        ),
      )

  Sound-asking :
      (now : ℕ) (key : Bytes) (cache : KeyCache) (o : Option (ℕ → Bytes → List Bytes → Option Bool))
      → c.check_key ≡ o
      → IsGenuine now cache
      → Sound now key (check_asking c o now key cache)
  unfolding check_asking
  Sound-asking now key cache none e g = Sound-refused now key cache g
  Sound-asking now key cache (some ask) e g = elim (Bool-cases (blank key)) [
    | inl b ↦ rw b (Sound-refused now key cache g)
    | inr b ↦ rw b (Sound-cached now key ask _ cache e refl g)
  ]

  Sound-require_auth :
      (now : ℕ) (r : Request) (cache : KeyCache)
      → IsGenuine now cache
      → Sound now r.api_key (require_auth c now r cache)
  unfolding require_auth
  Sound-require_auth now r cache g =
      let result : Bool → Bool × KeyCache =
        λ b. if b then (true, cache) else check_asking c c.check_key now r.api_key cache in
      elim (Bool-cases (is_listed c r.api_key)) [
        | inl known ↦ subst (λ b. Sound now r.api_key (result b)) (sym known) (g, λ h. inl known)
        | inr unknown ↦
            subst (λ b. Sound now r.api_key (result b)) (sym unknown)
              (Sound-asking now r.api_key cache _ refl g)
      ]

  -- Requests one after another, each some time behind the one before it: the time and the cache then.
  unfoldable pub visits : List (ℕ × Request) → ℕ → KeyCache → ℕ × KeyCache
  visits [] now cache = (now, cache)
  visits ((wait, r) ∷ rs) now cache = visits rs (now + wait) (require_auth c (now + wait) r cache).1

  visits-IsGenuine :
      (rs : List (ℕ × Request)) (now : ℕ) (cache : KeyCache)
      → IsGenuine now cache
      → IsGenuine (visits rs now cache).0 (visits rs now cache).1
  unfolding visits
  visits-IsGenuine [] now cache g = g
  visits-IsGenuine ((wait, r) ∷ rs) now cache g =
      visits-IsGenuine rs (now + wait) _
        (Sound-require_auth (now + wait) r cache
          (IsGenuine-later now (now + wait) cache (omega arith) g)).0

  -- Whatever requests came before, one after another from an empty cache, a request's key is let in
  -- only if it is the owner's or a guest's, or if the orchestrator has vouched for it no later than
  -- now and less than 30 s ago.
  pub require_auth-IsVouched :
      (rs : List (ℕ × Request)) (start wait : ℕ) (r : Request)
      → (require_auth c ((visits rs start []).0 + wait) r (visits rs start []).1).0 ≡ true
      → IsVouched ((visits rs start []).0 + wait) r.api_key
  require_auth-IsVouched rs start wait r =
      let (now, cache) = visits rs start [] in
      (Sound-require_auth (now + wait) r cache
        (IsGenuine-later now (now + wait) cache (omega arith) (visits-IsGenuine rs start [] tt))).1
