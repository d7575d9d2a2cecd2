-- ===== src/Transport/Connection/Writes.antt =====
-- `WriteExact` hands the bytes over in order and once.
use mathlib.Core.List.{append_assoc}
use tide_pool.Transport.Deadline.{expired}
use tide_pool.Transport.Poll.{poll_ready}
use tide_pool.Api.Status.{Status, ok}
use tide_pool.Transport.Connection.{
  Moved, Sent, WriteAttempt, after_bytes, after_wait, chunk, no_progress, send_blocks, send_failed,
  send_interrupted, sent, write_loop, write_step,
}
use tide_pool.Prelude.{
  Bool, List, Option, [], ap, arith, drop, false, if_lem, length, none, not, refl, some, suc, sym,
  take, true, zero, ℕ, ◌&&◌, ◌++◌, ◌==◌, ◌∙◌, ◌∷◌, ◌≡◌,
}

-- The bytes that the system took are the first of the source, and all of it where the loop ended well.
abbrev pub Writes : List ℕ → Option (Moved WriteAttempt) → Type 0
Writes source none = Unit {0}
Writes source (some (s, bytes, rest)) =
    ((more : List ℕ) × (source ≡ bytes ++ more)) × (s ≡ ok → bytes ≡ source)

take-drop : (n : ℕ) (bytes : List ℕ) → take n bytes ++ drop n bytes ≡ bytes
take-drop zero bytes = ground arith
take-drop (suc n) [] = refl
take-drop (suc n) (b ∷ bytes) = ap (λ l. b ∷ l) (take-drop n bytes)

Writes-after_bytes :
    (n : ℕ) (source : List ℕ) (o : Option (Moved WriteAttempt))
    → Writes (drop n source) o
    → Writes source (after_bytes (take n source) o)
Writes-after_bytes n source none r = tt
Writes-after_bytes n source (some (s, more, rest)) ((tail, e), f) = (
  (
    tail,
    sym (take-drop n source)
        ∙ ap (λ l. take n source ++ l) e
        ∙ sym (append_assoc (take n source) more tail),
  ),
  λ h. ap (λ l. take n source ++ l) (f h) ∙ take-drop n source,
)

Writes-after_wait :
    (source : List ℕ) (o : Option Status) (later : List WriteAttempt)
    (k : Option (Moved WriteAttempt))
    → Writes source k
    → Writes source (after_wait o later k)
Writes-after_wait source none later k r = tt
Writes-after_wait source (some ok) later k r = r
Writes-after_wait source (some s) later k r = ((source, refl), cc)

Writes-write_step :
    (expires_at : ℕ) (later : List WriteAttempt) (source : List ℕ)
    (loop : List ℕ → Option (Moved WriteAttempt)) (r : Sent)
    → ((l : List ℕ) → Writes l (loop l))
    → Writes source (write_step expires_at later source loop r)
Writes-write_step expires_at later source loop (sent n) k =
    Writes-after_bytes n source (loop (drop n source)) (k (drop n source))
Writes-write_step expires_at later source loop no_progress k = ((source, refl), cc)
Writes-write_step expires_at later source loop send_failed k = ((source, refl), cc)
Writes-write_step expires_at later source loop send_interrupted k = k source
Writes-write_step expires_at later source loop (send_blocks rounds) k =
    Writes-after_wait source (poll_ready true false expires_at rounds) later (loop source)
      (k source)

no_bytes : (source : List ℕ) → (length source == 0) ≡ true → [] ≡ source
no_bytes [] h = refl
no_bytes (b ∷ source) h = ground arith

pub write_loop-Writes :
    (expires_at : ℕ) (first : Bool) (later : List WriteAttempt) (source : List ℕ)
    → Writes source (write_loop expires_at first later source)
unfolding write_loop
write_loop-Writes expires_at first [] source =
    if_lem (Writes source) (length source == 0) _ _ (λ e. ((source, refl), λ _. no_bytes source e))
      (λ _. tt)
write_loop-Writes expires_at first (a ∷ later) source =
    if_lem (Writes source) (length source == 0) _ _ (λ e. ((source, refl), λ _. no_bytes source e))
      λ _.
        if_lem (Writes source) (not first && expired expires_at a.now) _ _
          (λ _. ((source, refl), cc))
          λ _.
            Writes-write_step expires_at later source (write_loop expires_at false later)
              (a.send (chunk (length source))) (λ l. write_loop-Writes expires_at false later l)
