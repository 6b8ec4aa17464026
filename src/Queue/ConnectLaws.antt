-- ===== src/Queue/ConnectLaws.antt =====
-- ConnectMQ ends after at most 30 dials, and leaves nothing open on an error.
use swarm_compute.Base.{
  ℕ, zero, suc, ◌+◌, ◌-◌, ◌≤◌, ◌<◌, ◌≡◌, refl, sym, Option, none, some, Option-cases, true, false,
  Error, errorf_wrap, ok, err, inl, inr, ◌⊎◌, Bool-cases, ◌==◌, arith,
}
use swarm_compute.Queue.Connect.{
  Calls, Connected, max_dials, dial_loop, open_channel, after_dials, connect_mq,
}

-- The dials from `i` on end with the first that succeeds, or with the last one of `n + 1`.
abbrev IsDialed : (ℕ → Option Error) → ℕ → ℕ → ℕ × Option Error → Type 0
IsDialed dial i n (dials, last) =
    (i + 1 ≤ dials)
    × (dials ≤ i + suc n)
    × (last ≡ dial (dials - 1))
    × ((k : ℕ) → i ≤ k → k + 1 < dials → (e : Error) × (dial k ≡ some e))
    × ((e : Error) → last ≡ some e → dials ≡ i + suc n)

module _ (dial : ℕ → Option Error) where
  stop-IsDialed :
      (i n : ℕ) (last : Option Error)
      → dial i ≡ last
      → ((e : Error) → last ≡ some e → n ≡ 0)
      → IsDialed dial i n (i + 1, last)
  stop-IsDialed i n last h ends =
      let here : i + 1 - 1 ≡ i = omega arith in
      (
        omega arith,
        omega arith,
        rw (here, h) refl,
        λ k above below. absurd (omega arith),
        λ e bad. let over = ends e bad in omega (arith, over),
      )

  later-IsDialed :
      (i n : ℕ) (e : Error) (out : ℕ × Option Error)
      → dial i ≡ some e
      → IsDialed dial (i + 1) n out
      → IsDialed dial i (suc n) out
  later-IsDialed i n e (dials, last) h (low, high, same, failed, exhausted) = (
    omega arith,
    omega arith,
    same,
    λ k above below. elim (Bool-cases (k == i)) [
      | inl here ↦ let at : k ≡ i = ground arith in (e, rw at h)
      | inr apart ↦ let after : i + 1 ≤ k = ground arith in failed k after below
    ],
    λ e' bad. let end = exhausted e' bad in omega (arith, end),
  )

  dial_loop-IsDialed :
      (n i : ℕ) (last : Option Error) → IsDialed dial i n (dial_loop dial (suc n) i last)
  unfolding dial_loop
  dial_loop-IsDialed zero i last = elim (Option-cases (dial i)) [
    | inl h ↦ rw (h, dial_loop) (stop-IsDialed i 0 none h (λ e bad. cc))
    | inr (e, h) ↦ rw (h, dial_loop) (stop-IsDialed i 0 (some e) h (λ e' bad. refl))
  ]
  dial_loop-IsDialed (suc n) i last = elim (Option-cases (dial i)) [
    | inl h ↦ rw (h, dial_loop) (stop-IsDialed i (suc n) none h (λ e bad. cc))
    | inr (e, h) ↦
        rw (h, dial_loop)
          (later-IsDialed i n e (dial_loop dial (suc n) (i + 1) (some e)) h
            (dial_loop-IsDialed n (i + 1) (some e)))
  ]

module _ (calls : Calls) where
  -- An MQ: the last dial and all behind it have succeeded, and the connection and the channel are open.
  abbrev pub IsReady : Connected → Type 0
  IsReady c =
      (c.result ≡ ok tt)
      × (c.conn_open ≡ true)
      × (c.ch_open ≡ true)
      × (calls.dial (c.dials - 1) ≡ none)
      × (calls.channel ≡ none)
      × (calls.queue_declare ≡ none)
      × (calls.qos ≡ none)

  -- The error for the first call behind the dials that fails.
  abbrev pub IsSetupError : Error → Type 0
  IsSetupError e =
      ((x : Error) × (calls.channel ≡ some x) × (e ≡ errorf_wrap "failed to open channel: " x))
      ⊎ ((x : Error) × (calls.channel ≡ none)
          × (calls.queue_declare ≡ some x)
          × (e ≡ errorf_wrap "failed to declare queue: " x))
      ⊎ ((x : Error) × (calls.channel ≡ none)
          × (calls.queue_declare ≡ none)
          × (calls.qos ≡ some x)
          × (e ≡ errorf_wrap "failed to set QoS: " x))

  -- The error for the thirtieth dial, which has failed.
  abbrev pub IsDialError : ℕ → Error → Type 0
  IsDialError dials e =
      (dials ≡ 30)
      × (x : Error) × (calls.dial 29 ≡ some x)
      × (e ≡ errorf_wrap "failed to connect to rabbitmq after 30 attempts: " x)

  -- An error, with nothing open: for a call behind a dial that has succeeded, or for the last dial.
  abbrev pub IsClosed : Connected → Type 0
  IsClosed c =
      (e : Error) × (c.result ≡ err e)
      × (c.conn_open ≡ false)
      × (c.ch_open ≡ false)
      × (((calls.dial (c.dials - 1) ≡ none) × IsSetupError e) ⊎ IsDialError c.dials e)

  opened :
      (n : ℕ)
      → calls.dial (n - 1) ≡ none
      → let c = open_channel calls.channel calls.queue_declare calls.qos n in
        (c.dials ≡ n) × (IsReady c ⊎ IsClosed c)
  opened n up = elim (Option-cases calls.channel) [
    | inr (e, h) ↦ rw h (
      refl,
      inr (
        errorf_wrap "failed to open channel: " e,
        refl,
        refl,
        refl,
        inl (up, inl (e, refl, refl)),
      ),
    )
    | inl c ↦ elim (Option-cases calls.queue_declare) [
      | inr (e, h) ↦
          rw (c, h)
            (
              refl,
              inr (
                errorf_wrap "failed to declare queue: " e,
                refl,
                refl,
                refl,
                inl (up, inr (inl (e, refl, refl, refl))),
              ),
            )
      | inl d ↦ elim (Option-cases calls.qos) [
        | inr (e, h) ↦
            rw (c, d, h)
              (
                refl,
                inr (
                  errorf_wrap "failed to set QoS: " e,
                  refl,
                  refl,
                  refl,
                  inl (up, inr (inr (e, refl, refl, refl, refl))),
                ),
              )
        | inl q ↦ rw (c, d, q) (refl, inl (refl, refl, refl, up, refl, refl, refl))
      ]
    ]
  ]

  dialed :
      (n : ℕ) (last : Option Error)
      → last ≡ calls.dial (n - 1)
      → ((e : Error) → last ≡ some e → n ≡ 30)
      → let c = after_dials calls (n, last) in (c.dials ≡ n) × (IsReady c ⊎ IsClosed c)
  dialed n none same ends = opened n (sym same)
  dialed n (some e) same ends =
      let exhausted : n ≡ 30 = ends e refl in
      (
        refl,
        inr (
          errorf_wrap "failed to connect to rabbitmq after 30 attempts: " e,
          refl,
          refl,
          refl,
          inr (exhausted, e, rw exhausted at (sym same), refl),
        ),
      )

  -- ConnectMQ ends after 1 to 30 dials, all but the last of which have failed. If the last dial
  -- and all calls behind it succeed, it gives an MQ with an open connection and an open channel.
  -- Else it gives an error with nothing left open: behind a dial that has succeeded, the error of
  -- the first call that has failed; otherwise that of the thirtieth dial.
  pub connect_mq_lem :
      let c = connect_mq calls in
      (1 ≤ c.dials)
      × (c.dials ≤ 30)
      × ((k : ℕ) → k + 1 < c.dials → (e : Error) × (calls.dial k ≡ some e))
      × (IsReady c ⊎ IsClosed c)
  unfolding connect_mq
  connect_mq_lem =
      let (n, last) = dial_loop calls.dial max_dials 0 none in
      let (low, high, same, failed, exhausted) = dial_loop-IsDialed calls.dial 29 0 none in
      let (dials, ended) = dialed n last same exhausted in
      (rw dials low, rw dials high, λ k below. failed k (omega arith) (rw dials at below), ended)
