-- ===== src/FtpServer/Transmission.antt =====
-- What the loops of `send` and `fread` of ftp_server.c put on a connection.
use mathlib.Core.List.{flatten}
use hust_network_programming.Base.{
  ℕ, zero, suc, ◌≤◌, ◌≡◌, refl, sym, ap, ◌∙◌, Bool, true, false, List, [], ◌∷◌, ◌++◌, append_assoc,
  append-nil, arith, length, take, drop, take-append-drop, length-drop, if◌then◌else◌, ◌==◌, ℤ, pos,
  negsuc,
}
use hust_network_programming.CText.{Bytes}
use hust_network_programming.Outcome.{done}
use hust_network_programming.System.{bind-done, Os, World, Event, History, sent}
use hust_network_programming.FtpServer.{ClientSession, Handler}
use hust_network_programming.FtpServer.Transfer.{buffer_size, blocks_of, send_rounds, send_blocks}

-- The same descriptor.
abbrev pub same : ℤ → ℤ → Bool
same (pos m) (pos n) = m == n
same (negsuc m) (negsuc n) = m == n
same _ _ = false

abbrev pub payload : ℤ → Event → Bytes
payload fd (sent to s (pos n)) = if same to fd then take n s else []
payload fd _ = []

-- The bytes that `send` took for a descriptor, in their order.
abbrev pub transmitted : ℤ → History → Bytes
transmitted fd [] = []
transmitted fd (e ∷ h) = transmitted fd h ++ payload fd e

-- `send` takes a byte at least, and no more than it was given: the connection does not fail.
abbrev pub Progresses : Os → ℤ → Type 0
Progresses os fd =
    (h : History) (c : ℕ) (s : Bytes)
    → (k : ℕ) × (os.send h fd (c ∷ s) ≡ pos (suc k)) × (k ≤ length s)

pub same_refl : (fd : ℤ) → same fd fd ≡ true
same_refl (pos n) = ground arith
same_refl (negsuc n) = ground arith

module _ (os : Os) (fd : ℤ) (progress : Progresses os fd) where
  -- What a piece of the transfer does: it ends, and sends the bytes.
  abbrev Carries : Handler → Bytes → World ClientSession → Type 0
  Carries m s w =
      (w' : World ClientSession) × (m w ≡ done (tt, w'))
      × (w'.state ≡ w.state)
      × (transmitted fd w'.history ≡ transmitted fd w.history ++ s)

  send_rounds-Carries :
      (fuel : ℕ) (s : Bytes) (w : World ClientSession)
      → length s ≤ fuel
      → Carries (send_rounds os fuel s fd) s w
  unfolding send_rounds
  send_rounds-Carries zero [] w h = (w, refl, refl, sym (append-nil _))
  send_rounds-Carries (suc fuel) [] w h = (w, refl, refl, sym (append-nil _))
  send_rounds-Carries zero (c ∷ s) w h = absurd (omega arith)
  send_rounds-Carries (suc fuel) (c ∷ s) w h =
      let (k, e, fits) = progress w.history c s in
      let w1 : World ClientSession = record w {
        history = sent fd (c ∷ s) (pos (suc k)) ∷ w.history;
      } in
      let (w', run, same_state, carried) =
        send_rounds-Carries fuel (drop k s) w1 (omega (arith, length-drop k s)) in
      (
        w',
        rw e run,
        same_state,
        carried
            ∙ append_assoc (transmitted fd w.history) _ (drop k s)
            ∙ ap (λ t. transmitted fd w.history ++ t) (payload-drop k c s),
      )
    where
      payload-drop :
          (k c : ℕ) (s : Bytes) → payload fd (sent fd (c ∷ s) (pos (suc k))) ++ drop k s ≡ c ∷ s
      payload-drop k c s = rw (same_refl fd) (ap (λ t. c ∷ t) (take-append-drop k s))

  pub send_blocks-Carries :
      (blocks : List Bytes) (w : World ClientSession)
      → Carries (send_blocks os blocks fd) (flatten blocks) w
  unfolding send_blocks flatten
  send_blocks-Carries [] w = (w, refl, refl, sym (append-nil _))
  send_blocks-Carries (block ∷ blocks) w =
      let (w1, run1, same1, carried1) = send_rounds-Carries (length block) block w (omega arith) in
      let (w2, run2, same2, carried2) = send_blocks-Carries blocks w1 in
      (
        w2,
        bind-done (send_rounds os (length block) block fd) (λ _. send_blocks os blocks fd) run1
            ∙ run2,
        same2 ∙ same1,
        carried2
            ∙ ap (λ t. t ++ flatten blocks) carried1
            ∙ append_assoc (transmitted fd w.history) block (flatten blocks),
      )

-- The blocks that `fread` gives make up the file; the length of the file is enough fuel.
pub flatten-blocks_of : (fuel : ℕ) (s : Bytes) → length s ≤ fuel → flatten (blocks_of fuel s) ≡ s
unfolding blocks_of flatten
flatten-blocks_of zero [] h = refl
flatten-blocks_of zero (c ∷ s) h = absurd (omega arith)
flatten-blocks_of (suc fuel) [] h = refl
flatten-blocks_of (suc fuel) (c ∷ s) h =
    ap (λ t. take buffer_size (c ∷ s) ++ t)
      (flatten-blocks_of fuel (drop buffer_size (c ∷ s))
        (omega (arith, length-drop buffer_size (c ∷ s))))
    ∙ take-append-drop buffer_size (c ∷ s)
