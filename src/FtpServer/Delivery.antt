-- ===== src/FtpServer/Delivery.antt =====
-- RETR and STOR of ftp_server.c carry whole files, however `send` and `recv` cut them up.
use mathlib.Core.List.{flatten}
use mathlib.Core.Path.{ap₂}
use hust_network_programming.Base.{
  ◌≡◌, refl, sym, ap, ◌∙◌, true, false, List, [], ◌∷◌, ◌++◌, append_assoc, append-nil, arith,
  length, is_neg, is_positive, minus_one, some, if◌then◌else◌, ℤ, pos, negsuc,
}
use hust_network_programming.CText.{Bytes, codes, str_eq, str_eq_iff}
use hust_network_programming.Outcome.{done}
use hust_network_programming.System.{
  bind-done, ◌>>◌, Os, World, History, sent, wrote, file_opened, file_closed, closed, accepted,
  received,
}
use hust_network_programming.FtpServer.{ClientSession}
use hust_network_programming.FtpServer.Transfer.{
  blocks_of, send_blocks, write_blocks, transfer_file, finish_file, close_data, retrieve,
  accept_data, file_path, handle_retr, handle_stor, receive_file, receive_opened,
}
use hust_network_programming.FtpServer.Transmission.{
  send_blocks-Carries, same, transmitted, payload, Progresses, flatten-blocks_of,
}

payload_ne : (fd to : ℤ) (s : Bytes) (r : ℤ) → same to fd ≡ false → payload fd (sent to s r) ≡ []
payload_ne fd to s (pos n) h = rw h refl
payload_ne fd to s (negsuc n) h = refl

-- A reply on another descriptor adds nothing.
transmitted_ne :
    (fd to : ℤ) (s : Bytes) (r : ℤ) (h : History)
    → same to fd ≡ false
    → transmitted fd (sent to s r ∷ h) ≡ transmitted fd h
transmitted_ne fd to s r h e =
    ap (λ t. transmitted fd h ++ t) (payload_ne fd to s r e) ∙ append-nil _

abbrev opening : Bytes
opening = codes "150 Opening data connection for file transfer\r\n"

abbrev complete : Bytes
complete = codes "226 Transfer complete\r\n"

-- The world behind `finish_file`.
abbrev finished : Os → Bytes → World ClientSession → World ClientSession
finished os path w =
    let h = closed w.state.data_socket ∷ file_closed path ∷ w.history in
    record {
      state = record w.state { data_socket = minus_one };
      history = sent w.state.ctrl_socket complete (os.send h w.state.ctrl_socket complete) ∷ h;
    }

finish_file_lem :
    (os : Os) (path : Bytes) (w : World ClientSession)
    → finish_file os path w ≡ done (tt, finished os path w)
unfolding finish_file close_data
finish_file_lem os path w = refl

module _ (os : Os) (fd : ℤ) (progress : Progresses os fd) where
  transfer_file-delivers :
      (path content : Bytes) (w : World ClientSession)
      → w.state.data_socket ≡ fd
      → same w.state.ctrl_socket fd ≡ false
      → (w' : World ClientSession) × (transfer_file os path content w ≡ done (tt, w'))
        × (w'.state ≡ record w.state { data_socket = minus_one })
        × (transmitted fd w'.history ≡ transmitted fd w.history ++ content)
  unfolding transfer_file
  transfer_file-delivers path content w d ne =
      let w1 : World ClientSession = record w {
        history =
            sent w.state.ctrl_socket opening (os.send w.history w.state.ctrl_socket opening)
            ∷ w.history;
      } in
      let blocks = blocks_of (length content) content in
      let (w2, run, same_state, carried) = send_blocks-Carries os fd progress blocks w1 in
      let ne2 : same w2.state.ctrl_socket fd ≡ false =
        ap (λ (t : ClientSession). same t.ctrl_socket fd) same_state ∙ ne in
      (
        finished os path w2,
        ap (λ t. (send_blocks os blocks t >> finish_file os path) w1) d
            ∙ bind-done (send_blocks os blocks fd) (λ _. finish_file os path) run
            ∙ finish_file_lem os path w2,
        ap (λ (t : ClientSession). record t { data_socket = minus_one }) same_state,
        transmitted_ne fd w2.state.ctrl_socket complete _
              (closed w2.state.data_socket ∷ file_closed path ∷ w2.history) ne2
            ∙ append-nil _
            ∙ append-nil _
            ∙ carried
            ∙ ap₂ (λ a b. a ++ b) (transmitted_ne fd w.state.ctrl_socket opening _ w.history ne)
                (flatten-blocks_of (length content) content (omega arith)),
      )

handle_retr_connected :
    (os : Os) (fd : ℤ) (filename path content : Bytes) (w : World ClientSession)
    → w.state.logged_in ≡ true
    → is_positive w.state.pasv_listen_socket ≡ true
    → file_path w.state filename ≡ done path
    → os.open_read w.history path ≡ some content
    → os.accept (file_opened path ∷ w.history) w.state.pasv_listen_socket ≡ fd
    → is_neg fd ≡ false
    → handle_retr os filename w
      ≡ transfer_file os path content (record {
        state = record w.state { data_socket = fd; pasv_listen_socket = minus_one };
        history =
            closed w.state.pasv_listen_socket
            ∷ accepted w.state.pasv_listen_socket fd
            ∷ file_opened path
            ∷ w.history;
      })
unfolding handle_retr retrieve accept_data
handle_retr_connected os fd filename path content w l p f o a g = ground arith

-- RETR in a session that is logged in and has a listening socket, on a file that can be read, with
-- a client that connects: it succeeds, all bytes of the file are sent on the data connection in
-- their order, however `send` cuts them up, and nothing else is; both data sockets are given up
-- and the rest of the session stays. `send` on that connection always takes a byte at least, and
-- the connection is not the control connection.
pub handle_retr-delivers :
    (os : Os) (fd : ℤ) (filename path content : Bytes) (w : World ClientSession)
    → Progresses os fd
    → w.state.logged_in ≡ true
    → is_positive w.state.pasv_listen_socket ≡ true
    → file_path w.state filename ≡ done path
    → os.open_read w.history path ≡ some content
    → os.accept (file_opened path ∷ w.history) w.state.pasv_listen_socket ≡ fd
    → is_neg fd ≡ false
    → same w.state.ctrl_socket fd ≡ false
    → (w' : World ClientSession) × (handle_retr os filename w ≡ done (tt, w'))
      × (w'.state ≡ record w.state { data_socket = minus_one; pasv_listen_socket = minus_one })
      × (transmitted fd w'.history ≡ transmitted fd w.history ++ content)
handle_retr-delivers os fd filename path content w progress l p f o a g ne =
    let w1 : World ClientSession = record {
      state = record w.state { data_socket = fd; pasv_listen_socket = minus_one };
      history =
          closed w.state.pasv_listen_socket
          ∷ accepted w.state.pasv_listen_socket fd
          ∷ file_opened path
          ∷ w.history;
    } in
    let (w', run, state', bytes) = transfer_file-delivers os fd progress path content w1 refl ne in
    (
      w',
      handle_retr_connected os fd filename path content w l p f o a g ∙ run,
      state',
      bytes ∙ ap (λ t. t ++ content) (append-nil _ ∙ append-nil _ ∙ append-nil _),
    )

-- What a file holds since it was last opened for writing.
abbrev pub written : Bytes → History → Bytes
written path [] = []
written path (file_opened p ∷ h) = if str_eq p path then [] else written path h
written path (wrote p s ∷ h) = if str_eq p path then written path h ++ s else written path h
written path (_ ∷ h) = written path h

write_blocks-written :
    (path : Bytes) (blocks : List Bytes) (w : World ClientSession)
    → (w' : World ClientSession) × (write_blocks path blocks w ≡ done (tt, w'))
      × (w'.state ≡ w.state)
      × (written path w'.history ≡ written path w.history ++ flatten blocks)
unfolding write_blocks flatten
write_blocks-written path [] w = (w, refl, refl, sym (append-nil _))
write_blocks-written path (block ∷ blocks) w =
    let w1 : World ClientSession = record w { history = wrote path block ∷ w.history } in
    let (w', run, same_state, bytes) = write_blocks-written path blocks w1 in
    (
      w',
      run,
      same_state,
      bytes
          ∙ ap
              (λ b.
                (if b then written path w.history ++ block else written path w.history)
                ++ flatten blocks)
              ((str_eq_iff path path).1 refl)
          ∙ append_assoc (written path w.history) block (flatten blocks),
    )

abbrev upload : Bytes
upload = codes "150 Opening data connection for file upload\r\n"

-- The calls of STOR up to the data connection, and up to the reply 150.
abbrev pub connected_history : ℤ → World ClientSession → History
connected_history fd w =
    closed w.state.pasv_listen_socket ∷ accepted w.state.pasv_listen_socket fd ∷ w.history

abbrev pub ready_history : Os → ℤ → Bytes → World ClientSession → History
ready_history os fd path w =
    let h = file_opened path ∷ connected_history fd w in
    sent w.state.ctrl_socket upload (os.send h w.state.ctrl_socket upload) ∷ h

abbrev ready : Os → ℤ → Bytes → List Bytes → World ClientSession → World ClientSession
ready os fd path blocks w = record {
  state = record w.state { data_socket = fd; pasv_listen_socket = minus_one };
  history = received fd blocks ∷ ready_history os fd path w;
}

handle_stor_connected :
    (os : Os) (fd : ℤ) (filename path : Bytes) (blocks : List Bytes) (w : World ClientSession)
    → w.state.logged_in ≡ true
    → is_positive w.state.pasv_listen_socket ≡ true
    → file_path w.state filename ≡ done path
    → os.accept w.history w.state.pasv_listen_socket ≡ fd
    → is_neg fd ≡ false
    → os.open_write (connected_history fd w) path ≡ true
    → os.stream (ready_history os fd path w) fd ≡ blocks
    → handle_stor os filename w
      ≡ (write_blocks path blocks >> finish_file os path) (ready os fd path blocks w)
unfolding handle_stor receive_file receive_opened accept_data
handle_stor_connected os fd filename path blocks w l p f a g o s = ground arith

-- STOR in a session that is logged in and has a listening socket, with a client that connects and
-- a file that can be written: it succeeds, and since it was opened the file holds all that `recv`
-- gave, in its order; both data sockets are given up and the rest of the session stays.
pub handle_stor-stores :
    (os : Os) (fd : ℤ) (filename path : Bytes) (blocks : List Bytes) (w : World ClientSession)
    → w.state.logged_in ≡ true
    → is_positive w.state.pasv_listen_socket ≡ true
    → file_path w.state filename ≡ done path
    → os.accept w.history w.state.pasv_listen_socket ≡ fd
    → is_neg fd ≡ false
    → os.open_write (connected_history fd w) path ≡ true
    → os.stream (ready_history os fd path w) fd ≡ blocks
    → (w' : World ClientSession) × (handle_stor os filename w ≡ done (tt, w'))
      × (w'.state ≡ record w.state { data_socket = minus_one; pasv_listen_socket = minus_one })
      × (written path w'.history ≡ flatten blocks)
handle_stor-stores os fd filename path blocks w l p f a g o s =
    let (w2, run, same_state, bytes) =
      write_blocks-written path blocks (ready os fd path blocks w) in
    (
      finished os path w2,
      handle_stor_connected os fd filename path blocks w l p f a g o s
          ∙ bind-done (write_blocks path blocks) (λ _. finish_file os path) run
          ∙ finish_file_lem os path w2,
      ap (λ (t : ClientSession). record t { data_socket = minus_one }) same_state,
      bytes
          ∙ ap (λ b. (if b then [] else written path (connected_history fd w)) ++ flatten blocks)
              ((str_eq_iff path path).1 refl),
    )
