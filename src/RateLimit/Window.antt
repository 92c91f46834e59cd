-- ===== src/RateLimit/Window.antt =====
-- The sliding window: the loop that drops expired times is a filter on a bucket in order, and no
-- window ever holds more admitted requests than the limit.
use reserach.Base.{
  ℕ, ◌+◌, ◌≤◌, ◌≡◌, ◌↔◌, refl, ap, Bool, true, false, ◌&&◌, List, [], ◌∷◌, ◌++◌, arith, length,
  keep, length-keep, All, All-append, All-keep, leb, ltb, if◌then◌else◌, Bool-cases, inl, inr,
  leb→le,
}
use reserach.RateLimit.{Bucket, Response, passed_on, too_many_requests, drop_expired, admit}

-- A request at `t` still counts at `now`.
abbrev pub alive : ℕ → ℕ → ℕ → Bool
alive window now t = ltb now (t + window)

-- `t` lies in the window of that length that ends with `now`.
abbrev pub within : ℕ → ℕ → ℕ → Bool
within window now t = leb t now && ltb now (t + window)

-- Times in order, none after `now`.
abbrev pub IsOrdered : ℕ → List ℕ → Type 0
IsOrdered now [] = Unit
IsOrdered now (t ∷ ts) = (t ≤ now) × All (λ u. t ≤ u) ts × IsOrdered now ts

module _ (window : ℕ) where
  -- Where the first time is alive all later ones are.
  keep-alive-All :
      (now t : ℕ) (ts : List ℕ)
      → alive window now t ≡ true
      → All (λ u. t ≤ u) ts
      → keep (alive window now) ts ≡ ts
  keep-alive-All now t [] h o = refl
  keep-alive-All now t (u ∷ ts) h o = ground (arith, keep-alive-All now t ts h o.1)

  -- On a bucket in order the loop at the front is a filter of the whole.
  pub drop_expired-eq-keep :
      (last now : ℕ) (ts : List ℕ)
      → IsOrdered last ts
      → drop_expired window now ts ≡ keep (alive window now) ts
  unfolding drop_expired
  drop_expired-eq-keep last now [] o = refl
  drop_expired-eq-keep last now (t ∷ ts) o =
      ground (arith, drop_expired-eq-keep last now ts o.2, keep-alive-All now t ts)

  keep-keep :
      (now later : ℕ) (ts : List ℕ)
      → now ≤ later
      → keep (alive window later) (keep (alive window now) ts) ≡ keep (alive window later) ts
  keep-keep now later [] h = refl
  keep-keep now later (t ∷ ts) h = ground (arith, keep-keep now later ts h)

  keep-append :
      (p : ℕ → Bool) (ts : List ℕ) (u : ℕ)
      → length (keep p (ts ++ u ∷ [])) ≡ length (keep p ts) + (if p u then 1 else 0)
  keep-append p [] u = ground arith
  keep-append p (t ∷ ts) u = ground (arith, keep-append p ts u)

  IsOrdered-keep :
      (p : ℕ → Bool) (last now : ℕ) (ts : List ℕ)
      → last ≤ now
      → IsOrdered last ts
      → IsOrdered now (keep p ts)
  IsOrdered-keep p last now [] h o = tt
  IsOrdered-keep p last now (t ∷ ts) h o =
      ground (arith, IsOrdered-keep p last now ts h o.2, All-keep (λ (u : ℕ). t ≤ u) p ts o.1)

  All-le :
      (t now : ℕ) (ts : List ℕ) → t ≤ now → All (λ u. t ≤ u) ts → All (λ u. t ≤ u) (ts ++ now ∷ [])
  All-le t now ts h o = All-append (λ u. t ≤ u) ts (now ∷ []) o (h, tt)

  IsOrdered-append : (now : ℕ) (ts : List ℕ) → IsOrdered now ts → IsOrdered now (ts ++ now ∷ [])
  IsOrdered-append now [] o = ground arith
  IsOrdered-append now (t ∷ ts) o =
      ground (arith, IsOrdered-append now ts o.2, All-le t now ts o.0 o.1)

module _ (limit window : ℕ) where
  -- The requests of one bucket in turn, with the times of those let through so far.
  abbrev pub Trace : Type 0
  Trace = Bucket × List ℕ

  abbrev pub admitted : ℕ → List ℕ → Response → List ℕ
  admitted now history passed_on = history ++ now ∷ []
  admitted now history too_many_requests = history

  unfoldable pub serve : List ℕ → Trace → Trace
  serve [] trace = trace
  serve (now ∷ times) (bucket, history) =
      let (response, bucket') = admit limit window now bucket in
      serve times (bucket', admitted now history response)

  -- What holds of a bucket and of the history behind it after a request at `last`.
  pub record IsFaithful (last : ℕ) (bucket : Bucket) (history : List ℕ) : Type 0 where
    pub ordered : IsOrdered last bucket
    pub past : All (λ t. t ≤ last) history
    pub remembered :
        (now : ℕ)
        → last ≤ now
        → length (keep (within window now) history) ≤ length (keep (alive window now) bucket)
    pub bounded : (now : ℕ) → length (keep (within window now) history) ≤ limit

  All-le_trans :
      (last now : ℕ) (ts : List ℕ) → last ≤ now → All (λ t. t ≤ last) ts → All (λ t. t ≤ now) ts
  All-le_trans last now [] h a = tt
  All-le_trans last now (t ∷ ts) h a = (omega arith, All-le_trans last now ts h a.1)

  module _ (last now : ℕ) (bucket : Bucket) (history : List ℕ) (later : last ≤ now)
      (f : IsFaithful last bucket history) where
    abbrev live : Bucket
    live = keep (alive window now) bucket

    IsFaithful-refused : IsFaithful now live history
    IsFaithful-refused = record {
      ordered = IsOrdered-keep window (alive window now) last now bucket later f.ordered;
      past = All-le_trans last now history later f.past;
      remembered =
          λ then' h. rw (keep-keep window now then' bucket h) (f.remembered then' (omega arith));
      bounded = f.bounded;
    }

    -- The history with the new time, in any window.
    bound_at :
        (at : ℕ)
        → leb limit (length live) ≡ false
        → length (keep (within window at) (history ++ now ∷ [])) ≤ limit
    bound_at at room = elim (Bool-cases (leb now at)) [
      | inl reached ↦
          let h : now ≤ at = leb→le now at reached in
          ground (
            arith,
            keep-append window (within window at) history now,
            ap (λ (ts : List ℕ). length ts) (keep-keep window now at bucket h),
            length-keep (alive window at) live,
            f.remembered at (omega arith),
          )
      | inr before ↦ ground (arith, keep-append window (within window at) history now, f.bounded at)
    ]

    IsFaithful-admitted :
        leb limit (length live) ≡ false → IsFaithful now (live ++ now ∷ []) (history ++ now ∷ [])
    IsFaithful-admitted room = record {
      ordered =
          IsOrdered-append window now live
            (IsOrdered-keep window (alive window now) last now bucket later f.ordered);
      past =
          All-append (λ t. t ≤ now) history (now ∷ []) (All-le_trans last now history later f.past)
            (omega arith);
      remembered = λ at h. ground (
        arith,
        keep-append window (within window at) history now,
        keep-append window (alive window at) live now,
        keep-keep window now at bucket h,
        f.remembered at (omega arith),
      );
      bounded = λ at. bound_at at room;
    }

  -- One decision of the limiter keeps the bucket faithful to the history.
  admit-IsFaithful :
      (last now : ℕ) (bucket : Bucket) (history : List ℕ)
      → last ≤ now
      → IsFaithful last bucket history
      → let (response, bucket') = admit limit window now bucket in
        IsFaithful now bucket' (admitted now history response)
  unfolding admit
  admit-IsFaithful last now bucket history later f =
      rw (drop_expired-eq-keep window last now bucket f.ordered)
        (decide (leb limit (length (live last now bucket history later f))) refl)
    where
      kept : Bucket
      kept = keep (alive window now) bucket

      decide :
          (b : Bool)
          → leb limit (length kept) ≡ b
          → let (response, bucket') : Response × Bucket =
              if b then (too_many_requests, kept) else (passed_on, kept ++ now ∷ []) in
            IsFaithful now bucket' (admitted now history response)
      decide true e = IsFaithful-refused last now bucket history later f
      decide false e = IsFaithful-admitted last now bucket history later f e

  -- Times in order, from `last` on.
  abbrev pub InOrder : ℕ → List ℕ → Type 0
  InOrder last [] = Unit
  InOrder last (now ∷ times) = (last ≤ now) × InOrder now times

  serve-bounded :
      (last : ℕ) (times : List ℕ) (bucket : Bucket) (history : List ℕ)
      → InOrder last times
      → IsFaithful last bucket history
      → (at : ℕ) → length (keep (within window at) (serve times (bucket, history)).1) ≤ limit
  unfolding serve
  serve-bounded last [] bucket history o f at = f.bounded at
  serve-bounded last (now ∷ times) bucket history o f at =
      serve-bounded now times (admit limit window now bucket).1
        (admitted now history (admit limit window now bucket).0) o.1
        (admit-IsFaithful last now bucket history o.0 f) at

  -- The sliding-window guarantee: when the requests of one client and path come in the order of time,
  -- at most `limit` of those let through lie in any window of the configured length, wherever it ends.
  pub sliding_window :
      (times : List ℕ)
      → InOrder 0 times
      → (at : ℕ) → length (keep (within window at) (serve times ([], [])).1) ≤ limit
  sliding_window times o at =
      serve-bounded 0 times [] [] o
        (record {
          ordered = tt;
          past = tt;
          remembered = λ now h. omega arith;
          bounded = λ now. omega arith;
        })
        at

  -- It is not stricter than that: a request is refused exactly when the window that ends with it
  -- already holds the limit of live times.
  pub admit_iff :
      (last now : ℕ) (bucket : Bucket)
      → IsOrdered last bucket
      → ((admit limit window now bucket).0 ≡ too_many_requests)
        ↔ (limit ≤ length (keep (alive window now) bucket))
  unfolding admit
  admit_iff last now bucket o = ground (arith, drop_expired-eq-keep window last now bucket o)
