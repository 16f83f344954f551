-- ===== src/RateLimit/Window.antt =====
-- How many requests of one client pass in a window.
use online_coding_judge.Prelude.{
  ℕ, suc, ◌+◌, ◌-◌, ◌≤◌, min, ℤ, pos, List, [], ◌∷◌, ◌++◌, Bytes, text, bytes_eq, bytes_eq_iff,
  false, none, ◌≡◌, refl, ◌∙◌, subst, inl, inr, ltb, if◌then◌else◌, arith, ==-refl, Bool-cases,
}
use online_coding_judge.Errors.{ok}
use online_coding_judge.RateLimit.{Redis, passed, too_many, count_script, allow, rate_limit}

-- The requests of `client` that pass, among those of the clients `keys`, in their order.
unfoldable pub passes : {W : Type 0} → Redis W → Bytes → ℤ → Bytes → List Bytes → W → ℕ
passes redis bucket limit client [] world = 0
passes redis bucket limit client (key ∷ keys) world =
    let (a, world') = rate_limit redis bucket limit key world in
    let rest = passes redis bucket limit client keys world' in
    if bytes_eq key client then (elim a [ passed ↦ suc rest | _ ↦ rest ]) else rest

-- The requests of `client`.
unfoldable pub requests : Bytes → List Bytes → ℕ
requests client [] = 0
requests client (key ∷ keys) = (if bytes_eq key client then 1 else 0) + requests client keys

-- The key in Redis of a client.
abbrev pub counter_of : Bytes → Bytes → Bytes
counter_of bucket client = text "judge:rate:" ++ (bucket ++ (58 ∷ client))

-- Redis counts the calls of INCR under each key, and setting a lifetime succeeds and leaves the
-- counts alone while the window lasts.
pub record Counts {W : Type 0} (redis : Redis W) (value : Bytes → W → ℕ) : Type 0 where
  pub replies : (key : Bytes) (w : W) → (redis.incr key w).0 ≡ ok (suc (value key w))
  pub counts : (key : Bytes) (w : W) → value key (redis.incr key w).1 ≡ suc (value key w)
  pub spares :
      (key other : Bytes) (w : W)
      → bytes_eq key other ≡ false
      → value other (redis.incr key w).1 ≡ value other w
  pub expires : (key : Bytes) (n : ℕ) (w : W) → (redis.pexpire key n w).0 ≡ none
  pub lasts :
      (key other : Bytes) (n : ℕ) (w : W) → value other (redis.pexpire key n w).1 ≡ value other w

bytes_eq-append : (p a b : Bytes) → bytes_eq (p ++ a) (p ++ b) ≡ bytes_eq a b
unfolding bytes_eq
bytes_eq-append [] a b = refl
bytes_eq-append (x ∷ p) a b = ground (arith, ==-refl x, bytes_eq-append p a b)

-- Clients have counters of their own.
bytes_eq-counter_of :
    (bucket key client : Bytes)
    → bytes_eq (counter_of bucket key) (counter_of bucket client) ≡ bytes_eq key client
bytes_eq-counter_of bucket key client =
    bytes_eq-append (text "judge:rate:") _ _
    ∙ bytes_eq-append bucket _ _
    ∙ bytes_eq-append (58 ∷ []) key client

module _ {W : Type 0} (redis : Redis W) (value : Bytes → W → ℕ) (counts : Counts redis value) where
  script_counts :
      (key : Bytes) (n : ℕ) (w : W)
      → let r = count_script redis key n w in
        (r.0 ≡ ok (suc (value key w))) × (value key r.1 ≡ suc (value key w))
  unfolding count_script
  script_counts key n w = ground (
    arith,
    counts.replies key w,
    counts.counts key w,
    counts.expires key n (redis.incr key w).1,
    counts.lasts key key n (redis.incr key w).1,
  )

  script_spares :
      (key other : Bytes) (n : ℕ) (w : W)
      → bytes_eq key other ≡ false
      → value other (count_script redis key n w).1 ≡ value other w
  unfolding count_script
  script_spares key other n w differ = ground (
    arith,
    counts.replies key w,
    counts.spares key other w differ,
    counts.expires key n (redis.incr key w).1,
    counts.lasts key other n (redis.incr key w).1,
  )

  request :
      (bucket client : Bytes) (limit : ℕ) (w : W)
      → 1 ≤ limit
      → let r = rate_limit redis bucket (pos limit) client w in
        (r.0 ≡ (if ltb (value (counter_of bucket client) w) limit then passed else too_many))
        × (value (counter_of bucket client) r.1 ≡ suc (value (counter_of bucket client) w))
  unfolding rate_limit allow
  request bucket client limit w positive =
      let (replied, counted) = script_counts (counter_of bucket client) 60000 w in
      ground (arith, replied, counted)

  own_request :
      (bucket key client : Bytes) (limit : ℕ) (w : W)
      → 1 ≤ limit
      → key ≡ client
      → let r = rate_limit redis bucket (pos limit) key w in
        (r.0 ≡ (if ltb (value (counter_of bucket client) w) limit then passed else too_many))
        × (value (counter_of bucket client) r.1 ≡ suc (value (counter_of bucket client) w))
  own_request bucket key client limit w positive same =
      subst
        (λ c.
          let r = rate_limit redis bucket (pos limit) key w in
          (r.0 ≡ (if ltb (value (counter_of bucket c) w) limit then passed else too_many))
          × (value (counter_of bucket c) r.1 ≡ suc (value (counter_of bucket c) w)))
        same (request bucket key limit w positive)

  other_request :
      (bucket key client : Bytes) (limit : ℕ) (w : W)
      → 1 ≤ limit
      → bytes_eq key client ≡ false
      → value (counter_of bucket client) (rate_limit redis bucket (pos limit) key w).1
        ≡ value (counter_of bucket client) w
  unfolding rate_limit allow
  other_request bucket key client limit w positive differ =
      let spared =
        script_spares (counter_of bucket key) (counter_of bucket client) 60000 w
          (bytes_eq-counter_of bucket key client ∙ differ) in
      ground (arith, spared)

  -- In one window, with a Redis that counts under each key: of the requests of a client, however
  -- those of other clients come in between, as many pass as the limit leaves, from whatever count
  -- the client's counter starts, and no more.
  pub passes_lem :
      (bucket client : Bytes) (limit : ℕ) (keys : List Bytes) (w : W)
      → 1 ≤ limit
      → passes redis bucket (pos limit) client keys w
        ≡ min (requests client keys) (limit - value (counter_of bucket client) w)
  unfolding passes requests
  passes_lem bucket client limit [] w positive = omega arith
  passes_lem bucket client limit (key ∷ keys) w positive =
      let rest =
        passes_lem bucket client limit keys (rate_limit redis bucket (pos limit) key w).1
          positive in
      elim (Bool-cases (bytes_eq key client)) [
        | inr other ↦
            let spared = other_request bucket key client limit w positive other in
            ground (arith, other, spared, rest)
        | inl own ↦
            let same : key ≡ client = (bytes_eq_iff key client).0 own in
            let (answered, counted) = own_request bucket key client limit w positive same in
            ground (arith, own, answered, counted, rest)
      ]
