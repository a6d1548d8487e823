-- ===== src/Streams/Counter.antt =====
-- The counter of active streams counts the guards that are held.
use internal_ai_gateway.Base.{
  ℕ, ◌+◌, ◌≤◌, ◌≡◌, refl, sym, Bool, List, [], ◌∷◌, ◌++◌, if◌then◌else◌, arith,
}
use internal_ai_gateway.Streams.{
  Phase, idle, refused, dropped, trying, holding, thread_step, release, ActiveStreamTracker,
  Reachable, new, act, IsIdle,
}

-- A guard that was not released yet.
abbrev pub held : Phase → ℕ
held idle = 0
held refused = 0
held dropped = 0
held (trying current) = 0
held (holding guard) = if guard.released then 0 else 1

abbrev pub held_by : List Phase → ℕ
held_by [] = 0
held_by (p ∷ ps) = held p + held_by ps

held_by-append : (ps qs : List Phase) → held_by (ps ++ qs) ≡ held_by ps + held_by qs
held_by-append [] qs = omega arith
held_by-append (p ∷ ps) qs = omega (arith, held_by-append ps qs)

held_by-IsIdle : (ps : List Phase) → IsIdle ps → held_by ps ≡ 0
held_by-IsIdle [] h = refl
held_by-IsIdle (p ∷ ps) h = rw h.0 (omega (arith, held_by-IsIdle ps h.1))

-- An action changes the counter by what it changes of its own guard.
thread_step-held :
    (max : ℕ) (fails : Bool) (p : Phase) (n others : ℕ)
    → n ≡ held p + others
    → n ≤ max
    → let (q, m) = thread_step max fails p n in (m ≡ held q + others) × (m ≤ max)
unfolding thread_step release
thread_step-held max fails idle n others e h = (e, h)
thread_step-held max fails refused n others e h = (e, h)
thread_step-held max fails dropped n others e h = (e, h)
thread_step-held max fails (trying current) n others e h = ground arith
thread_step-held max fails (holding guard) n others e h = ground arith

-- Whatever the threads do, and in whatever order: the counter of active streams is the number of
-- guards that are held and not released, and it is never above the limit.
pub active_streams_bounded :
    (max : ℕ) (t : ActiveStreamTracker)
    → Reachable max t
    → (t.active_streams ≡ held_by t.threads) × (t.active_streams ≤ max)
active_streams_bounded max t (new threads h) = (sym (held_by-IsIdle threads h), omega arith)
active_streams_bounded max t (act n before after p fails r) =
    let (e, h) = active_streams_bounded max _ r in
    let q = (thread_step max fails p n).0 in
    let (e', h') =
      thread_step-held max fails p n (held_by before + held_by after)
        (omega (arith, e, held_by-append before (p ∷ after))) h in
    (omega (arith, e', held_by-append before (q ∷ after)), h')
