-- ===== src/Blake2s/Streaming.antt =====
-- src/blake2s.cpp: what `update` does to the buffer, byte by byte and block by block.
use norr.Prelude.{
  ℕ, zero, suc, ◌+◌, ◌-◌, ◌≤◌, ◌<◌, min, ◌≡◌, refl, sym, ap, ◌∙◌, Bool, true, false, inl, inr, List,
  [], ◌∷◌, ◌++◌, arith, if◌then◌else◌, ==_ne, length, length-drop, length-take, take-append-drop,
  set, take, drop, Bool-cases,
}
use norr.Blake2s.Hash.{Blake2s, block_size, compress, copy_to, flush, update_loop, update}

-- A byte at a time.
unfoldable pub absorb : ℕ → Blake2s → Blake2s
absorb b s = record (flush s) {
  buffer = set (flush s).buffer (flush s).buffered b;
  buffered = (flush s).buffered + 1;
}

unfoldable pub absorb_all : List ℕ → Blake2s → Blake2s
absorb_all [] s = s
absorb_all (b ∷ input) s = absorb_all input (absorb b s)

pub absorb_all-append :
    (a b : List ℕ) (s : Blake2s) → absorb_all (a ++ b) s ≡ absorb_all b (absorb_all a s)
unfolding absorb_all
absorb_all-append [] b s = refl
absorb_all-append (x ∷ a) b s = absorb_all-append a b (absorb x s)

pub flush-room : (s : Blake2s) → s.buffered ≤ block_size → (flush s).buffered < block_size
unfolding flush compress
flush-room s h = ground arith

-- Nothing to flush.
pub flush_idle : (s : Blake2s) → s.buffered < block_size → flush s ≡ s
unfolding flush
flush_idle s h = rw (==_ne s.buffered block_size (λ e. omega arith)) refl

absorb_idle :
    (b : ℕ) (s : Blake2s)
    → s.buffered < block_size
    → absorb b s ≡ record s { buffer = set s.buffer s.buffered b; buffered = s.buffered + 1 }
unfolding absorb
absorb_idle b s h =
    ap (λ (t : Blake2s). record t { buffer = set t.buffer t.buffered b; buffered = t.buffered + 1 })
      (flush_idle s h)

-- Bytes for which there is room are copied to the buffer.
pub absorb_all-chunk :
    (bytes : List ℕ) (s : Blake2s)
    → s.buffered + length bytes ≤ block_size
    → absorb_all bytes s ≡ record s {
      buffer = copy_to s.buffer s.buffered bytes;
      buffered = s.buffered + length bytes;
    }
unfolding absorb_all copy_to
absorb_all-chunk [] s fits = ap (λ n. record s { buffered = n }) (omega arith)
absorb_all-chunk (b ∷ bytes) s fits =
    ap (absorb_all bytes) (absorb_idle b s (omega (arith, fits)))
    ∙ absorb_all-chunk bytes
        (record s { buffer = set s.buffer s.buffered b; buffered = s.buffered + 1 })
        (omega (arith, fits))
    ∙ ap
        (λ n. record s {
          buffer = copy_to (set s.buffer s.buffered b) (s.buffered + 1) bytes;
          buffered = n;
        })
        (omega arith)

pub absorb_all-flush :
    (b : ℕ) (input : List ℕ) (s : Blake2s)
    → s.buffered ≤ block_size
    → absorb_all (b ∷ input) (flush s) ≡ absorb_all (b ∷ input) s
unfolding absorb_all absorb
absorb_all-flush b input s h =
    ap
      (λ (t : Blake2s).
        absorb_all input
          (record t { buffer = set t.buffer t.buffered b; buffered = t.buffered + 1 }))
      (flush_idle (flush s) (flush-room s h))

update_loop-absorb_all :
    (fuel : ℕ) (input : List ℕ) (s : Blake2s)
    → s.buffered ≤ block_size
    → length input ≤ fuel
    → update_loop fuel input s ≡ absorb_all input s
unfolding update_loop absorb_all
update_loop-absorb_all zero [] s h enough = refl
update_loop-absorb_all zero (b ∷ input) s h enough = absurd (omega arith)
update_loop-absorb_all (suc fuel) [] s h enough = refl
update_loop-absorb_all (suc fuel) (b ∷ input) s h enough =
    let f = flush s in
    let all = b ∷ input in
    let n = min (block_size - f.buffered) (length all) in
    let room = flush-room s h in
    let fits : f.buffered + length (take n all) ≤ block_size = omega (arith, length-take n all) in
    let copied = copy_to f.buffer f.buffered (take n all) in
    update_loop-absorb_all fuel (drop n all)
      (record f { buffer = copied; buffered = f.buffered + n }) (omega arith)
      (omega (arith, length-drop n all))
    ∙ ap (λ m. absorb_all (drop n all) (record f { buffer = copied; buffered = f.buffered + m }))
        (omega (arith, length-take n all))
    ∙ ap (absorb_all (drop n all)) (sym (absorb_all-chunk (take n all) f fits))
    ∙ sym (absorb_all-append (take n all) (drop n all) f)
    ∙ ap (λ l. absorb_all l f) (take-append-drop n all)
    ∙ absorb_all-flush b input s h

update_loop-room :
    (fuel : ℕ) (input : List ℕ) (s : Blake2s)
    → s.buffered ≤ block_size
    → (update_loop fuel input s).buffered ≤ block_size
unfolding update_loop
update_loop-room zero input s h = h
update_loop-room (suc fuel) [] s h = h
update_loop-room (suc fuel) (b ∷ input) s h =
    let room = flush-room s h in update_loop-room fuel _ _ (omega arith)

either-room :
    (f : Bool) (s t : Blake2s)
    → s.buffered ≤ block_size
    → t.buffered ≤ block_size
    → (if f then s else t).buffered ≤ block_size
either-room true s t p q = p
either-room false s t p q = q

-- The bytes in the buffer stay within it.
pub update-room :
    (s : Blake2s) (input : List ℕ)
    → s.buffered ≤ block_size
    → (update s input).buffered ≤ block_size
unfolding update
update-room s input h = either-room s.finished s _ h (update_loop-room (length input) input s h)

-- `update` takes the bytes one after another.
pub update-absorb_all :
    (s : Blake2s) (input : List ℕ)
    → s.buffered ≤ block_size
    → update s input ≡ (if s.finished then s else absorb_all input s)
unfolding update
update-absorb_all s input h =
    ap (λ t. if s.finished then s else t)
      (update_loop-absorb_all (length input) input s h (omega arith))

pub absorb_all-finished :
    (input : List ℕ) (s : Blake2s) → (absorb_all input s).finished ≡ s.finished
unfolding absorb_all absorb flush compress
absorb_all-finished [] s = refl
absorb_all-finished (b ∷ input) s = absorb_all-finished input (absorb b s) ∙ (ground arith)

pub absorb_all-digest_size :
    (input : List ℕ) (s : Blake2s) → (absorb_all input s).digest_size ≡ s.digest_size
unfolding absorb_all absorb flush compress
absorb_all-digest_size [] s = refl
absorb_all-digest_size (b ∷ input) s = absorb_all-digest_size input (absorb b s) ∙ (ground arith)

pub update_stopped : (s : Blake2s) (input : List ℕ) → s.finished ≡ true → update s input ≡ s
unfolding update
update_stopped s input e = ap (λ f. if f then s else update_loop (length input) input s) e

pub update_running :
    (s : Blake2s) (input : List ℕ)
    → s.buffered ≤ block_size
    → s.finished ≡ false
    → update s input ≡ absorb_all input s
update_running s input h e =
    update-absorb_all s input h ∙ ap (λ f. if f then s else absorb_all input s) e

pub update-finished :
    (s : Blake2s) (input : List ℕ)
    → s.buffered ≤ block_size
    → s.finished ≡ false
    → (update s input).finished ≡ false
update-finished s input h e =
    ap (λ (t : Blake2s). t.finished) (update_running s input h e) ∙ absorb_all-finished input s ∙ e

-- A message that is given in two parts is hashed like one that is given whole, wherever it is cut
-- and whatever the buffer holds.
pub update-append :
    (s : Blake2s) (a b : List ℕ)
    → s.buffered ≤ block_size
    → update (update s a) b ≡ update s (a ++ b)
update-append s a b h = elim (Bool-cases s.finished) [
  | inl e ↦
      ap (λ t. update t b) (update_stopped s a e)
      ∙ update_stopped s b e
      ∙ sym (update_stopped s (a ++ b) e)
  | inr e ↦
      update_running (update s a) b (update-room s a h) (update-finished s a h e)
      ∙ ap (absorb_all b) (update_running s a h e)
      ∙ sym (absorb_all-append a b s)
      ∙ sym (update_running s (a ++ b) h e)
]
