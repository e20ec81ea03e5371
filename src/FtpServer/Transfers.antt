-- ===== src/FtpServer/Transfers.antt =====
-- The commands with a data connection keep the invariant of a session, and give back each
-- descriptor that they take.
use hust_network_programming.Base.{
  ℕ, ◌<◌, ◌≡◌, true, false, List, arith, ℤ, is_neg, is_positive, Option, none, some,
}
use hust_network_programming.CText.{Bytes, codes}
use hust_network_programming.Account.{Account}
use hust_network_programming.Outcome.{fit}
use hust_network_programming.System.{
  Os, World, Ensures, Ensures-bind, Ensures-lift, Ensures-if, ◌>>=◌, ◌>>◌, open_read,
}
use hust_network_programming.FtpServer.{
  ClientSession, Handler, when_logged_in, please_login, send_response,
}
use hust_network_programming.FtpServer.Transfer.{
  handle_pasv, handle_list, handle_retr, handle_stor, receive_file, file_path, parse_ip,
  accept_data, when_connected, when_listening, cannot_open_data, retrieve, listen_on, announce,
  open_listener, pasv_response, close_old_listener, next_pasv_port,
}
use hust_network_programming.FtpServer.Invariant.{IsLoose, IsValid}
use hust_network_programming.FtpServer.DataConnection.{
  transfer_list-IsValid, transfer_file-IsValid, receive_file-IsValid,
}

module _ (os : Os) (accounts : List Account) (tried : List Bytes) (n : ℕ) (n_pos : 0 < n) where
  abbrev Keeps : Handler → Type 0
  Keeps m =
      (w : World ClientSession)
      → IsValid accounts tried n w
      → Ensures (λ _ w'. IsValid accounts tried n w') (m w)

  when_logged_in-IsValid : (m : Handler) → Keeps m → Keeps (when_logged_in os m)
  when_logged_in-IsValid m keep w h =
      Ensures-if (λ _ w'. IsValid accounts tried n w') w.state.logged_in m
        (send_response os please_login) w (λ _. keep w h) (λ e. ground arith)

  abbrev Listens : Handler → Type 0
  Listens m =
      (w : World ClientSession)
      → IsValid accounts tried n w
      → is_positive w.state.pasv_listen_socket ≡ true
      → Ensures (λ _ w'. IsValid accounts tried n w') (m w)

  when_listening-IsValid : (m : Handler) → Listens m → Keeps (when_listening os m)
  when_listening-IsValid m keep w h =
      Ensures-if (λ _ w'. IsValid accounts tried n w') (is_positive w.state.pasv_listen_socket) m
        (send_response os (codes "425 Use PASV first\r\n")) w (keep w h) (λ e. ground arith)

  accept_data-IsLoose :
      {k : ℕ} (w : World ClientSession)
      → IsLoose accounts tried n k w
      → is_positive w.state.data_socket ≡ false
      → Ensures (λ _ w'. IsLoose accounts tried n k w') (accept_data os w)
  unfolding accept_data
  accept_data-IsLoose w h e = ground arith

  with_connection-IsValid :
      {k : ℕ} (failed connected : Handler)
      → ((w : World ClientSession)
          → IsLoose accounts tried n k w
          → is_neg w.state.data_socket ≡ true
          → Ensures (λ _ w'. IsValid accounts tried n w') (failed w))
      → ((w : World ClientSession)
          → IsLoose accounts tried n k w
          → Ensures (λ _ w'. IsValid accounts tried n w') (connected w))
      → (w : World ClientSession) → IsLoose accounts tried n k w
      → is_positive w.state.data_socket ≡ false
      → Ensures
          (λ _ w'. IsValid accounts tried n w')
          ((accept_data os >> when_connected failed connected) w)
  with_connection-IsValid failed connected no_fd fd w h e =
      Ensures-bind _ (λ _. when_connected failed connected) (accept_data-IsLoose w h e)
        (λ _. record {
          at = λ w' h'.
              Ensures-if (λ _ w'. IsValid accounts tried n w') _ failed connected w' (no_fd w' h')
                (λ _. fd w' h');
        })

  refuse_data-IsValid :
      (w : World ClientSession)
      → IsLoose accounts tried n 0 w
      → is_neg w.state.data_socket ≡ true
      → Ensures (λ _ w'. IsValid accounts tried n w') (send_response os cannot_open_data w)
  refuse_data-IsValid w h e = ground arith

  pub handle_list-IsValid : Keeps (handle_list os)
  unfolding handle_list
  handle_list-IsValid = when_logged_in-IsValid _ (
      when_listening-IsValid _ (λ w h _.
        with_connection-IsValid _ _ refuse_data-IsValid (transfer_list-IsValid os accounts tried n)
          w h.loose h.no_data))

  abbrev held : Option Bytes → ℕ
  held none = 0
  held (some content) = 1

  open_read-IsLoose :
      (path : Bytes) (w : World ClientSession)
      → IsValid accounts tried n w
      → Ensures
          (λ content w'.
            IsLoose accounts tried n (held content) w' × (is_positive w'.state.data_socket ≡ false))
          (open_read os path w)
  open_read-IsLoose path w h = ground arith

  retrieve-IsValid :
      (path : Bytes) (content : Option Bytes) (w : World ClientSession)
      → IsLoose accounts tried n (held content) w
      → is_positive w.state.data_socket ≡ false
      → Ensures (λ _ w'. IsValid accounts tried n w') (retrieve os path content w)
  unfolding retrieve
  retrieve-IsValid path none w h e = ground arith
  retrieve-IsValid path (some content) w h e =
      with_connection-IsValid _ _ (λ w' h' e'. ground arith)
        (transfer_file-IsValid os accounts tried n path content) w h e

  pub handle_retr-IsValid : (filename : Bytes) → Keeps (handle_retr os filename)
  unfolding handle_retr
  handle_retr-IsValid filename = when_logged_in-IsValid _ (
      when_listening-IsValid _ (λ w h _.
        Ensures-lift (λ _ w'. IsValid accounts tried n w') (file_path w.state filename)
          (λ path. open_read os path >>= retrieve os path) w
          (λ path _.
            Ensures-bind _ (retrieve os path) (open_read-IsLoose path w h)
              (λ content. record { at = λ w' h'. retrieve-IsValid path content w' h'.0 h'.1 }))))

  pub handle_stor-IsValid : (filename : Bytes) → Keeps (handle_stor os filename)
  unfolding handle_stor
  handle_stor-IsValid filename = when_logged_in-IsValid _ (
      when_listening-IsValid _ (λ w h _.
        Ensures-lift (λ _ w'. IsValid accounts tried n w') (file_path w.state filename)
          (λ path.
            accept_data os
            >> when_connected (send_response os cannot_open_data) (receive_file os path))
          w
          (λ path _.
            with_connection-IsValid _ _ refuse_data-IsValid
              (receive_file-IsValid os accounts tried n path) w h.loose h.no_data)))

  close_old_listener-IsValid :
      (w : World ClientSession)
      → IsValid accounts tried n w
      → Ensures
          (λ _ w'. IsValid accounts tried n w' × (is_positive w'.state.pasv_listen_socket ≡ false))
          (close_old_listener w)
  unfolding close_old_listener
  close_old_listener-IsValid w h = ground arith

  announce-IsValid : (server_ip : Bytes) → Keeps (announce os server_ip)
  unfolding announce next_pasv_port
  announce-IsValid server_ip w h =
      Ensures-lift (λ _ w'. IsValid accounts tried n w') (parse_ip server_ip) _ w
        (λ ip _.
          Ensures-lift (λ _ w'. IsValid accounts tried n w')
            (fit 128 (pasv_response ip w.state.pasv_port)) _ w (λ response _. ground arith))

  -- A socket that `socket` has just given, and that no field of the session holds yet.
  abbrev IsSpare : ℤ → World ClientSession → Type 0
  IsSpare fd w =
      IsValid accounts tried n (record w { state = record w.state { pasv_listen_socket = fd } })
      × (is_positive w.state.pasv_listen_socket ≡ false)

  listen_on-IsValid :
      (server_ip : Bytes) (fd : ℤ) (w : World ClientSession)
      → IsSpare fd w
      → Ensures (λ _ w'. IsValid accounts tried n w') (listen_on os server_ip fd w)
  unfolding listen_on
  listen_on-IsValid server_ip fd w h =
      Ensures-if (λ _ w'. IsValid accounts tried n w')
        (is_neg (os.bind w.history fd w.state.pasv_port)) _ _ _ (λ e. ground arith)
        (λ _. announce-IsValid server_ip _ (ground arith))

  open_listener-IsValid :
      (server_ip : Bytes) (w : World ClientSession)
      → IsValid accounts tried n w
      → is_positive w.state.pasv_listen_socket ≡ false
      → Ensures (λ _ w'. IsValid accounts tried n w') (open_listener os server_ip w)
  unfolding open_listener
  open_listener-IsValid server_ip w h old =
      Ensures-if (λ _ w'. IsValid accounts tried n w') (is_neg (os.socket w.history)) _ _ _
        (λ e. ground arith) (λ _. listen_on-IsValid server_ip _ _ (ground arith, old))

  pub handle_pasv-IsValid : (server_ip : Bytes) → Keeps (handle_pasv os server_ip)
  unfolding handle_pasv
  handle_pasv-IsValid server_ip = when_logged_in-IsValid _ (λ w h.
      Ensures-bind _ (λ _. open_listener os server_ip) (close_old_listener-IsValid w h)
        (λ _. record { at = λ w' h'. open_listener-IsValid server_ip w' h'.0 h'.1 }))
