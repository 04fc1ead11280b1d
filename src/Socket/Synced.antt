-- ===== src/Socket/Synced.antt =====
-- What is asked of the server on the current socket.
use mathlib.Core.Path.{subst}
use thassa.Base.{
  ℕ, ◌≡◌, ◌∙◌, ◌==◌, refl, not, ◌&&◌, ◌||◌, Bool, true, false, if_cases, option_cases,
  if◌then◌else◌, Text, text_eq, List, [], ◌∷◌, Option, none, some, arith,
}
use thassa.Socket.{
  Ready, connecting, ready_open, is_ready, Frame, subscribe, unsubscribe, other, Connection, Socket,
}
use thassa.Socket.Channels.{has, channels, subscribed}
use thassa.Socket.Step.{raw_send, resubscribe}

-- A socket that is connecting was sent nothing, and over an open one the channels of `h` are
-- asked for, and no others.
pub record InLine (h : Text → Bool) (is_open : Bool) (c : Connection) : Type 0 where
  pub fresh : c.ready ≡ connecting → c.sent ≡ []
  pub flag : c.ready ≡ ready_open → is_open ≡ true
  pub view : c.ready ≡ ready_open → (d : Text) → subscribed d c.sent ≡ h d

abbrev pub SyncedTo : (Text → Bool) → Socket → Type 0
SyncedTo h s = (i : ℕ) → s.ws ≡ some i → InLine h s.is_open (s.connections i)

abbrev pub Synced : Socket → Type 0
Synced s = SyncedTo (λ c. has c s.subscriptions) s

pub SyncedTo-eq :
    (h k : Text → Bool) (s : Socket) → ((c : Text) → h c ≡ k c) → SyncedTo h s → SyncedTo k s
SyncedTo-eq h k s e p i w =
    let q = p i w in record { fresh = q.fresh; flag = q.flag; view = λ o d. q.view o d ∙ e d }

-- The channels after a frame are the ones that it makes of those before.
abbrev pub Makes : Frame → (Text → Bool) → (Text → Bool) → Type 0
Makes m h k = (f : List Frame) (c : Text) → subscribed c f ≡ h c → subscribed c (m ∷ f) ≡ k c

not_up : (r : Ready) → r ≡ connecting → is_ready r ≡ true → ⊥
not_up r e h = let q = subst (λ x. is_ready x ≡ true) e h in ground (arith, q)

not_down : (r : Ready) → r ≡ ready_open → is_ready r ≡ false → ⊥
not_down r e h = let q = subst (λ x. is_ready x ≡ false) e h in ground (arith, q)

pub sent_line :
    (m : Frame) (h k : Text → Bool) (b : Bool) (c : Connection)
    → Makes m h k
    → is_ready c.ready ≡ true
    → InLine h b c
    → InLine k b (record { ready = c.ready; sent = m ∷ c.sent })
sent_line m h k b c make up p = record {
  fresh = λ e. absurd (not_up c.ready e up);
  flag = p.flag;
  view = λ e d. make c.sent d (p.view e d);
}

pub dropped_line :
    (h k : Text → Bool) (b : Bool) (c : Connection)
    → is_ready c.ready ≡ false
    → InLine h b c
    → InLine k b c
dropped_line h k b c down p = record {
  fresh = p.fresh;
  flag = p.flag;
  view = λ e. absurd (not_down c.ready e down);
}

pub some_inj : (o : Option ℕ) {i j : ℕ} → o ≡ some i → o ≡ some j → i ≡ j
some_inj o a b = ground arith

pub no_some : {o : Option ℕ} {i : ℕ} → o ≡ none → o ≡ some i → ⊥
no_some a b = ground arith

pub raw_send-SyncedTo :
    (m : Frame) (h k : Text → Bool) (s : Socket)
    → Makes m h k
    → SyncedTo h s
    → SyncedTo k (raw_send m s)
unfolding raw_send
raw_send-SyncedTo m h k s make p =
    option_cases (SyncedTo k) s.ws (λ no i w. absurd (no_some no w))
      (λ j at.
        if_cases (SyncedTo k) (is_ready (s.connections j).ready)
          (λ up i w.
            let q = some_inj s.ws w at in
            if_cases (InLine k s.is_open) (i == j)
              (λ _.
                sent_line m h k s.is_open (s.connections j) make up
                  (subst (λ n. InLine h s.is_open (s.connections n)) q (p i w)))
              (λ n. absurd (other_than i j n q)))
          (λ down i w.
            let q = some_inj s.ws at w in
            dropped_line h k s.is_open (s.connections i)
              (subst (λ n. is_ready (s.connections n).ready ≡ false) q down) (p i w)))
  where
    other_than : (i j : ℕ) → (i == j) ≡ false → i ≡ j → ⊥
    other_than i j n q = ground arith

-- Whether a channel is in a list of them.
abbrev pub within : Text → List Text → Bool
within c [] = false
within c (d ∷ ds) = text_eq d c || within c ds

pub within-channels {ℓ} :
    {V : Type ℓ} (c : Text) (s : List (Text × V)) → within c (channels s) ≡ has c s
unfolding channels has
within-channels c [] = refl
within-channels c ((e, n) ∷ r) = rw (within-channels c r) (either (text_eq e c) (has c r))
  where
    either : (a b : Bool) → (a || b) ≡ (if a then true else b)
    either true b = refl
    either false b = refl

pub subscribe-Makes : (d : Text) (h : Text → Bool) → Makes (subscribe d) h (λ c. text_eq d c || h c)
unfolding subscribed
subscribe-Makes d h f c e = rw e (either (text_eq d c) (h c))
  where
    either : (a b : Bool) → (if a then true else b) ≡ (a || b)
    either true b = refl
    either false b = refl

pub unsubscribe-Makes :
    (d : Text) (h : Text → Bool) → Makes (unsubscribe d) h (λ c. not (text_eq d c) && h c)
unfolding subscribed
unsubscribe-Makes d h f c e = rw e (both (text_eq d c) (h c))
  where
    both : (a b : Bool) → (if a then false else b) ≡ (not a && b)
    both true b = refl
    both false b = refl

pub other-Makes : (d : Text) (h : Text → Bool) → Makes (other d) h h
unfolding subscribed
other-Makes d h f c e = e

pub resubscribe-SyncedTo :
    (cs : List Text) (h : Text → Bool) (s : Socket)
    → SyncedTo h s
    → SyncedTo (λ c. within c cs || h c) (resubscribe cs s)
unfolding resubscribe
resubscribe-SyncedTo [] h s p = p
resubscribe-SyncedTo (d ∷ ds) h s p =
    let k = λ (c : Text). text_eq d c || h c in
    SyncedTo-eq _ (λ c. within c (d ∷ ds) || h c) (resubscribe ds (raw_send (subscribe d) s))
      (λ c. swap (text_eq d c) (within c ds) (h c))
      (resubscribe-SyncedTo ds k (raw_send (subscribe d) s)
        (raw_send-SyncedTo (subscribe d) h k s (subscribe-Makes d h) p))
  where
    swap : (a b x : Bool) → (b || (a || x)) ≡ ((a || b) || x)
    swap true true x = refl
    swap true false x = refl
    swap false b x = refl
