-- ===== src/Retry/Reconnect.antt =====
-- The loop that `SubscribeTrades` (go/v1/trade.go) and `SubscribeOrderEvents` (go/v1/order.go) share: a
-- stream is opened, and opened again after a delay, until the context is done or an error is not
-- transient.

use fx_sdk.Retry.{is_stream_retryable}
use fx_sdk.Retry.Backoff.{backoff}
use fx_sdk.Errors.{Error, context, context_cancelled}
use fx_sdk.Common.{
  All, ap, ◌++◌, Bool, List, Option, Text, [], false, inl, inr, none, refl, some, true, ℕ, ℤ, ◌+◌,
  ◌∷◌, ◌≡◌, ◌⊎◌,
}

-- One round of the loop: the stream, and whether the context is done after it and during the wait.
pub record Round (S : Type 0) : Type 0 where
  pub session : S
  pub done_after : Bool
  pub done_waiting : Bool

-- The return of the call, if it has returned, the delays before the reconnects so far, and the state.
abbrev pub Loop : Type 0 → Type 0
Loop W = Option Error × List ℤ × W

module _ {W : Type 0} (words : Text) where
  abbrev waited : ℤ → Loop W → Loop W
  waited delay (e, delays, w) = (e, delay ∷ delays, w)

  -- The three tests after a stream has ended with `e`: the context is done, the error is transient, the
  -- context is done in the wait. `next` is the rest of the loop.
  abbrev pub after_tests : Bool → Bool → Bool → ℤ → Error → W → Loop W → Loop W
  after_tests true retryable waiting delay e w next = (some context_cancelled, [], w)
  after_tests false false waiting delay e w next = (some (context words e), [], w)
  after_tests false true true delay e w next = (some context_cancelled, delay ∷ [], w)
  after_tests false true false delay e w next = waited delay next

  after_tests_inv :
      (P : W → Type 0) (a b c : Bool) (delay : ℤ) (e : Error) (w : W) (next : Loop W)
      → P w
      → P next.2
      → P (after_tests a b c delay e w next).2
  after_tests_inv P true b c delay e w next h hn = h
  after_tests_inv P false false c delay e w next h hn = h
  after_tests_inv P false true true delay e w next h hn = h
  after_tests_inv P false true false delay e w next h hn = hn

module _ {S W : Type 0} (words : Text) (draw : ℕ → ℕ) (base_delay max_delay : ℤ) where
  abbrev pub after_stream : Round S → ℕ → Error → W → Loop W → Loop W
  after_stream r attempt e w next =
      after_tests words r.done_after (is_stream_retryable e) r.done_waiting
        (backoff draw attempt base_delay max_delay) e w next

  -- The loop over the rounds that the environment plays; `none` after the last of them means that the
  -- call has not returned yet.
  unfoldable pub reconnect : (S → ℕ → W → Error × ℕ × W) → List (Round S) → ℕ → W → Loop W
  reconnect run [] attempt w = (none, [], w)
  reconnect run (r ∷ rs) attempt w =
      let (e, attempt', w') = run r.session attempt w in
      after_stream r attempt' e w' (reconnect run rs (attempt' + 1) w')

  module _ (run : S → ℕ → W → Error × ℕ × W) where
    -- A round after which the loop opens the next stream: the context is not done, and the stream has
    -- ended with a transient error.
    pub record GoesOn (r : Round S) : Type 0 where
      pub still_running : r.done_after ≡ false
      pub waited_out : r.done_waiting ≡ false
      pub attempt : ℕ
      pub state : W
      pub transient : is_stream_retryable (run r.session attempt state).0 ≡ true

    -- A round after which the call returns the error `e`: the context is done and `e` is its error, or the
    -- stream has ended with an error that is not transient, which `e` wraps.
    abbrev pub Stops : Round S → Error → Type 0
    Stops r e =
        ((e ≡ context_cancelled) × ((r.done_after ≡ true) ⊎ (r.done_waiting ≡ true)))
        ⊎ ((attempt : ℕ) × (state : W) × (e ≡ context words (run r.session attempt state).0)
            × (is_stream_retryable (run r.session attempt state).0 ≡ false))

    -- How the call has ended over the rounds, if it has: at the first round that stops it.
    abbrev pub Ended : List (Round S) → Option Error → Type 0
    Ended rs none = All GoesOn rs
    Ended rs (some e) =
        (earlier : List (Round S)) × (r : Round S) × (later : List (Round S)) × (rs
          ≡ earlier ++ r ∷ later)
        × All GoesOn earlier
        × Stops r e

    Ended-cons :
        (r : Round S) (rs : List (Round S)) (o : Option Error)
        → GoesOn r
        → Ended rs o
        → Ended (r ∷ rs) o
    Ended-cons r rs none g h = (g, h)
    Ended-cons r rs (some e) g (earlier, last, later, split, gone, stops) =
        (r ∷ earlier, last, later, ap (λ (l : List (Round S)). r ∷ l) split, (g, gone), stops)

    after_stream-Ended :
        (r : Round S) (rs : List (Round S)) (attempt : ℕ) (w : W) (delay : ℤ) (w' : W)
        (next : Loop W)
        → Ended rs next.0
        → Ended
            (r ∷ rs)
            (after_tests words r.done_after
              (is_stream_retryable (run r.session attempt w).0)
              r.done_waiting
              delay
              (run r.session attempt w).0
              w'
              next).0
    after_stream-Ended r rs attempt w delay w' next h =
        go r.done_after (is_stream_retryable (run r.session attempt w).0) r.done_waiting refl refl
          refl
      where
        go :
            (a b c : Bool)
            → r.done_after ≡ a
            → is_stream_retryable (run r.session attempt w).0 ≡ b
            → r.done_waiting ≡ c
            → Ended (r ∷ rs) (after_tests words a b c delay (run r.session attempt w).0 w' next).0
        go true b c done_after retryable waiting = ([], r, rs, refl, tt, inl (refl, inl done_after))
        go false false c done_after retryable waiting =
            ([], r, rs, refl, tt, inr (attempt, w, refl, retryable))
        go false true true done_after retryable waiting =
            ([], r, rs, refl, tt, inl (refl, inr waiting))
        go false true false done_after retryable waiting =
            Ended-cons r rs next.0
              (record {
                still_running = done_after;
                waited_out = waiting;
                attempt = attempt;
                state = w;
                transient = retryable;
              })
              h

    pub reconnect-Ended :
        (rs : List (Round S)) (attempt : ℕ) (w : W) → Ended rs (reconnect run rs attempt w).0
    unfolding reconnect
    reconnect-Ended [] attempt w = tt
    reconnect-Ended (r ∷ rs) attempt w =
        let (e, attempt', w') = run r.session attempt w in
        after_stream-Ended r rs attempt w (backoff draw attempt' base_delay max_delay) w'
          (reconnect run rs (attempt' + 1) w') (reconnect-Ended rs (attempt' + 1) w')

  -- What every stream keeps is kept over all reconnects.
  pub reconnect_inv :
      (P : W → Type 0) (run : S → ℕ → W → Error × ℕ × W)
      → ((s : S) (n : ℕ) (w : W) → P w → P (run s n w).2)
      → (rs : List (Round S)) (attempt : ℕ) (w : W) → P w
      → P (reconnect run rs attempt w).2
  unfolding reconnect
  reconnect_inv P run keeps [] attempt w h = h
  reconnect_inv P run keeps (r ∷ rs) attempt w h =
      let h' = keeps r.session attempt w h in
      let (e, attempt', w') = run r.session attempt w in
      after_tests_inv words P r.done_after (is_stream_retryable e) r.done_waiting
        (backoff draw attempt' base_delay max_delay) e w' (reconnect run rs (attempt' + 1) w') h'
        (reconnect_inv P run keeps rs (attempt' + 1) w' h')
