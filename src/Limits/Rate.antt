-- ===== src/Limits/Rate.antt =====
-- How many requests a window lets through.
use chat_with_cli.Base.{
  ℕ, suc, ◌+◌, ◌-◌, ◌≤◌, ◌<◌, Str, List, [], ◌∷◌, some, true, ◌&&◌, ltb, ◌==◌, str_eq, nat_eq,
  if◌then◌else◌, ◌≡◌, ◌≢◌, inl, inr, arith, Bool-cases, str_beq_iff, All,
}
use chat_with_cli.Base.Map
use chat_with_cli.Limits.{
  Rates, hour, sweep, count_request, current, entry_or_zero, allow_rate, Request, step,
}

-- How many requests under the key are let through.
unfoldable pub admitted : Str → Rates → List Request → ℕ
admitted k rates [] = 0
admitted k rates (r ∷ rs) =
    (if r.key == k && (step rates r).1 then 1 else 0) + admitted k (step rates r).0 rs

-- The window that the key is in.
abbrev pub InWindow : Rates → Str → ℕ → ℕ → Type 0
InWindow rates k start n = Map.get rates k ≡ some (record { started = start; count = n })

module _ (k : Str) (limit window start : ℕ) where
  -- A request that comes within the window; those under the key have its limit and length.
  pub record Within (r : Request) : Type 0 where
    pub early : r.now - start < window
    pub same : r.key ≡ k → (r.limit ≡ limit) × (r.window ≡ window)

  sweep-keeps :
      (rates : Rates) (n now : ℕ)
      → now - start < hour
      → InWindow rates k start n
      → InWindow (sweep rates now) k start n
  unfolding sweep
  sweep-keeps rates n now h e =
      rw (Map.get-retain) (Map.filter_value_kept _ (Map.get rates k) _ e (ground arith))

  count_request_other :
      (rates : Rates) (n : ℕ) (key : Str) (lim win now : ℕ)
      → key ≢ k
      → InWindow rates k start n
      → InWindow (count_request rates key lim win now).0 k start n
  unfolding count_request
  count_request_other rates n key lim win now other e =
      let v = current (entry_or_zero (Map.get rates key)) now win in
      ground (
        arith,
        Map.get-put_other rates key k v other,
        Map.get-put_other rates key k (record v { count = v.count + 1 }) other,
      )

  count_request_same :
      (rates : Rates) (n now : ℕ)
      → start ≢ 0
      → now - start < window
      → InWindow rates k start n
      → ((count_request rates k limit window now).1 ≡ ltb n limit)
        × InWindow
            (count_request rates k limit window now).0
            k
            start
            (if ltb n limit then suc n else n)
  unfolding count_request
  count_request_same rates n now begun early e = ground (
    arith,
    e,
    Map.get-put_self rates k (record { started = start; count = n }),
    Map.get-put_self rates k (record { started = start; count = n + 1 }),
  )

  allow_rate_other :
      (rates : Rates) (n : ℕ) (r : Request)
      → r.key ≢ k
      → r.now - start < hour
      → InWindow rates k start n
      → InWindow (step rates r).0 k start n
  unfolding step
  allow_rate_other rates n r other recent e = ground (
    arith,
    sweep-keeps rates n r.now recent e,
    count_request_other rates n r.key r.limit r.window r.now other e,
    count_request_other (sweep rates r.now) n r.key r.limit r.window r.now other
        (sweep-keeps rates n r.now recent e),
  )

  allow_rate_same :
      (rates : Rates) (n now : ℕ)
      → start ≢ 0
      → limit ≢ 0
      → window ≤ hour
      → now - start < window
      → InWindow rates k start n
      → InWindow
          (allow_rate rates k limit window now).0
          k
          start
          (if (allow_rate rates k limit window now).1 then suc n else n)
        × ((allow_rate rates k limit window now).1 ≡ true → n < limit)
  unfolding allow_rate
  allow_rate_same rates n now begun bounded short early e =
      let kept = sweep-keeps rates n now (omega arith) e in
      ground (
        arith,
        kept,
        count_request_same rates n now begun early e,
        count_request_same (sweep rates now) n now begun early kept,
      )

  step_same :
      (rates : Rates) (n : ℕ) (r : Request)
      → start ≢ 0
      → limit ≢ 0
      → window ≤ hour
      → r.key ≡ k
      → Within r
      → InWindow rates k start n
      → InWindow (step rates r).0 k start (if (step rates r).1 then suc n else n)
        × ((step rates r).1 ≡ true → n < limit)
  unfolding step
  step_same rates n r begun bounded short key w e =
      let (lim, win) = w.same key in
      let same : allow_rate rates r.key r.limit r.window r.now
          ≡ allow_rate rates k limit window r.now =
        cc (key, lim, win) in
      rw same (allow_rate_same rates n r.now begun bounded short w.early e)

  -- Of the requests that fall into a window, under whatever keys they come and however full the
  -- table is, at most the limit is let through under the window's key, those before them included.
  pub admitted-le :
      (rates : Rates) (n : ℕ) (rs : List Request)
      → start ≢ 0
      → limit ≢ 0
      → window ≤ hour
      → n ≤ limit
      → InWindow rates k start n
      → All Within rs
      → n + admitted k rates rs ≤ limit
  unfolding admitted
  admitted-le rates n [] begun bounded short fits e ws = omega arith
  admitted-le rates n (r ∷ rs) begun bounded short fits e (w, ws) =
      let t = (step rates r).0 in
      elim (Bool-cases (r.key == k)) [
        | inl mine ↦
            let (next, room) =
              step_same rates n r begun bounded short ((str_beq_iff r.key k).0 mine) w e in
            elim (Bool-cases (step rates r).1) [
              | inl through ↦
                  let more : InWindow t k start (suc n) = rw through at next in
                  rw (mine, through)
                    (omega (
                      arith,
                      room through,
                      admitted-le t (suc n) rs begun bounded short (room through) more ws,
                    ))
              | inr refused ↦
                  let same : InWindow t k start n = rw refused at next in
                  rw (mine, refused)
                    (omega (arith, admitted-le t n rs begun bounded short fits same ws))
            ]
        | inr foreign ↦
            let other : r.key ≢ k = ground (arith, str_beq_iff r.key k) in
            let same = allow_rate_other rates n r other (ground (arith, w.early)) e in
            rw foreign (omega (arith, admitted-le t n rs begun bounded short fits same ws))
      ]
