-- ===== src/FtpServer/DataConnection.antt =====
-- The data connection of LIST, RETR and STOR in ftp_server.c: the invariant of a session.
use hust_network_programming.Base.{
  if◌then◌else◌, ℕ, zero, suc, ◌≡◌, refl, Bool, true, false, List, [], ◌∷◌, ◌++◌, arith, length,
  drop, ℤ, pos, negsuc, ltb, Option, none, some, Bool-cases, inl, inr, ◌⊎◌,
}
use hust_network_programming.CText.{Bytes}
use hust_network_programming.Account.{Account}
use hust_network_programming.Outcome.{Outcome}
use hust_network_programming.System.{
  Os, World, Event, Ensures, Ensures-bind, Ensures-lift, ◌>>=◌, opendir, open_write, Stat,
}
use hust_network_programming.FtpServer.{ClientSession, Handler, get_absolute_path}
use hust_network_programming.FtpServer.Transfer.{
  transfer_list, transfer_file, receive_file, send_rounds, send_blocks, list_entries, write_blocks,
  close_data, add_line, send_list, list_line, finish_file, finish_list, receive_opened,
}
use hust_network_programming.FtpServer.Invariant.{
  file_opening, file_closing, IsLoose, IsValid, opening, closing,
}

ℤ-cases : (z : ℤ) → (z ≡ pos 0) ⊎ ((k : ℕ) × (z ≡ pos (suc k))) ⊎ ((k : ℕ) × (z ≡ negsuc k))
ℤ-cases (pos zero) = inl refl
ℤ-cases (pos (suc k)) = inr (inl (k, refl))
ℤ-cases (negsuc k) = inr (inr (k, refl))

module _ (os : Os) (accounts : List Account) (tried : List Bytes) (n : ℕ) where
  IsLoose-event :
      {j : ℕ} (e : Event) (w : World ClientSession)
      → opening n e ≡ 0
      → closing n e ≡ 0
      → file_opening e ≡ 0
      → file_closing e ≡ 0
      → IsLoose accounts tried n j w
      → IsLoose accounts tried n j (record w { history = e ∷ w.history })
  IsLoose-event {j} e w o c f g h = ground arith

  abbrev StaysLoose : {A : Type 0} → ℕ → Outcome (A × World ClientSession) → Type 0
  StaysLoose j = Ensures (λ _ w. IsLoose accounts tried n j w)

  send_rounds-IsLoose :
      {j : ℕ} (fuel : ℕ) (rest : Bytes) (fd : ℤ) (w : World ClientSession)
      → IsLoose accounts tried n j w
      → StaysLoose j (send_rounds os fuel rest fd w)
  unfolding send_rounds
  send_rounds-IsLoose {j} zero rest fd w h = h
  send_rounds-IsLoose {j} (suc fuel) [] fd w h = h
  send_rounds-IsLoose {j} (suc fuel) (c ∷ rest) fd w h =
      elim (ℤ-cases (os.send w.history fd (c ∷ rest))) [
        | inl e ↦ rw e (IsLoose-event {j = j} _ w refl refl refl refl h)
        | inr (inl (k, e)) ↦ rw e (
            send_rounds-IsLoose {j = j} fuel (drop k rest) fd _
              (IsLoose-event {j = j} _ w refl refl refl refl h))
        | inr (inr (k, e)) ↦ rw e (IsLoose-event {j = j} _ w refl refl refl refl h)
      ]

  send_blocks-IsLoose :
      {j : ℕ} (blocks : List Bytes) (fd : ℤ) (w : World ClientSession)
      → IsLoose accounts tried n j w
      → StaysLoose j (send_blocks os blocks fd w)
  unfolding send_blocks
  send_blocks-IsLoose {j} [] fd w h = h
  send_blocks-IsLoose {j} (block ∷ blocks) fd w h =
      Ensures-bind (send_rounds os (length block) block fd w) (λ _. send_blocks os blocks fd)
        (send_rounds-IsLoose {j = j} (length block) block fd w h)
        (λ _. record { at = λ w' h'. send_blocks-IsLoose {j = j} blocks fd w' h' })

  write_blocks-IsLoose :
      {j : ℕ} (path : Bytes) (blocks : List Bytes) (w : World ClientSession)
      → IsLoose accounts tried n j w
      → StaysLoose j (write_blocks path blocks w)
  unfolding write_blocks
  write_blocks-IsLoose {j} path [] w h = h
  write_blocks-IsLoose {j} path (block ∷ blocks) w h =
      write_blocks-IsLoose {j = j} path blocks _ (IsLoose-event {j = j} _ w refl refl refl refl h)

  add_line-IsLoose :
      {j : ℕ} (buffer name : Bytes) (found : Option Stat) (w : World ClientSession)
      → IsLoose accounts tried n j w
      → StaysLoose j (add_line buffer name found w)
  unfolding add_line
  add_line-IsLoose {j} buffer name none w h = h
  add_line-IsLoose {j} buffer name (some st) w h =
      elim (Bool-cases (ltb (length (list_line st name)) 512)) [
        | inl e ↦ elim (Bool-cases (ltb (length (buffer ++ list_line st name)) 8192)) [
          | inl f ↦ rw (e, f) h
          | inr f ↦ rw (e, f) tt
        ]
        | inr e ↦ rw e tt
      ]

  list_entries-IsLoose :
      {j : ℕ} (abs_path : Bytes) (names : List Bytes) (buffer : Bytes) (w : World ClientSession)
      → IsLoose accounts tried n j w
      → StaysLoose j (list_entries os abs_path names buffer w)
  unfolding list_entries
  list_entries-IsLoose {j} abs_path [] buffer w h = h
  list_entries-IsLoose {j} abs_path (name ∷ names) buffer w h =
      elim (Bool-cases (ltb (length (abs_path ++ (b'/' ∷ name))) 1280)) [
        | inl e ↦ rw e (
            Ensures-bind _ _
              (add_line-IsLoose {j = j} buffer name _ _
                (IsLoose-event {j = j} _ w refl refl refl refl h))
              (λ longer. record {
                at = λ w' h'. list_entries-IsLoose {j = j} abs_path names longer w' h';
              }))
        | inr e ↦ rw e tt
      ]

  abbrev Ends : ℕ → Handler → Type 0
  Ends k m =
      (w : World ClientSession)
      → IsLoose accounts tried n k w
      → Ensures (λ _ w'. IsValid accounts tried n w') (m w)

  finish_file-IsValid : (path : Bytes) → Ends 1 (finish_file os path)
  unfolding finish_file close_data
  finish_file-IsValid path w h = ground arith

  finish_list-IsValid : (abs_path listing : Bytes) → Ends 1 (finish_list os abs_path listing)
  unfolding finish_list close_data
  finish_list-IsValid abs_path listing w h = ground arith

  pub transfer_file-IsValid : (path content : Bytes) → Ends 1 (transfer_file os path content)
  unfolding transfer_file
  transfer_file-IsValid path content w h =
      Ensures-bind _ (λ _. finish_file os path)
        (send_blocks-IsLoose _ _ _ (IsLoose-event _ w refl refl refl refl h))
        (λ _. record { at = finish_file-IsValid path })

  receive_opened-IsValid :
      (path : Bytes) (opened : Bool)
      → Ends (if opened then 1 else 0) (receive_opened os path opened)
  unfolding receive_opened close_data
  receive_opened-IsValid path false w h = ground arith
  receive_opened-IsValid path true w h =
      Ensures-bind _ (λ _. finish_file os path)
        (write_blocks-IsLoose path _ _
          (IsLoose-event _ _ refl refl refl refl (IsLoose-event _ w refl refl refl refl h)))
        (λ _. record { at = finish_file-IsValid path })

  open_write-IsLoose :
      (path : Bytes) (w : World ClientSession)
      → IsLoose accounts tried n 0 w
      → Ensures (λ b w'. IsLoose accounts tried n (if b then 1 else 0) w') (open_write os path w)
  open_write-IsLoose path w h = ground arith

  pub receive_file-IsValid : (path : Bytes) → Ends 0 (receive_file os path)
  unfolding receive_file
  receive_file-IsValid path w h =
      Ensures-bind _ (receive_opened os path) (open_write-IsLoose path w h)
        (λ opened. record { at = receive_opened-IsValid path opened })

  -- The directory that is open.
  abbrev opened : Option (List Bytes) → ℕ
  opened none = 0
  opened (some names) = 1

  send_list-IsValid :
      (abs_path : Bytes) (names : Option (List Bytes))
      → Ends (opened names) (send_list os abs_path names)
  unfolding send_list close_data
  send_list-IsValid abs_path none w h = ground arith
  send_list-IsValid abs_path (some names) w h =
      Ensures-bind _ (finish_list os abs_path) (list_entries-IsLoose abs_path names [] w h)
        (λ listing. record { at = finish_list-IsValid abs_path listing })

  opendir-IsLoose :
      (path : Bytes) (w : World ClientSession)
      → IsLoose accounts tried n 0 w
      → Ensures (λ names w'. IsLoose accounts tried n (opened names) w') (opendir os path w)
  opendir-IsLoose path w h = ground arith

  pub transfer_list-IsValid : Ends 0 (transfer_list os)
  unfolding transfer_list
  transfer_list-IsValid w h =
      Ensures-lift (λ _ w'. IsValid accounts tried n w') (get_absolute_path w.state)
        (λ path. opendir os path >>= send_list os path) _
        (λ path _.
          Ensures-bind _ (send_list os path)
            (opendir-IsLoose path _ (IsLoose-event _ w refl refl refl refl h))
            (λ names. record { at = send_list-IsValid path names }))
