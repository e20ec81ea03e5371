-- ===== src/SelectFtp/Commands.antt =====
-- The commands of np22.c and the shared variables.
use Prim.Native.Nat.{Ordering}
use hust_network_programming.Base.{
  ℕ, zero, suc, ◌≤◌, ◌<◌, Bool, true, false, List, [], ◌∷◌, ◌++◌, none, arith, length,
  length-append, drop, if◌then◌else◌, ltb, ℤ, is_positive, Bool-cases, inl, inr, ℤ-cases, ltb→lt,
}
use hust_network_programming.CText.{Bytes, codes}
use hust_network_programming.Outcome.{fit, Outcome-cases}
use hust_network_programming.System.{Os, World, sent, Ensures, Ensures-bind, Ensures-lift}
use hust_network_programming.HttpUpload.{Entry, compare_entries}
use hust_network_programming.CText.{before}
use hust_network_programming.CText.Scan.{is_nul}
use hust_network_programming.SelectFtp.{
  Shared, Server, reply, send_all, handle_pwd, handle_pasv, handle_list, handle_cwd, handle_cdup,
  FtpCommand, user, pass, syst, feat, opts, pwd, type, pasv, list, cwd, cdup, other, run_command,
  admit_client, enter_folder, send_list, some_text, end_list, create_list,
}
use hust_network_programming.SelectFtp.Paths.{
  IsAbsolute, parent_folder-IsAbsolute, enter_folder-IsAbsolute,
}

-- The shared variables are in order.
pub record IsValid (w : World Shared) : Type 0 where
  pub absolute : IsAbsolute w.state.root_path
  pub short : length w.state.root_path < 1024
  pub port_low : 10000 ≤ w.state.pasv_port
  pub few : length w.state.clients ≤ 1024

abbrev pub Valid : Unit {0} → World Shared → Type 0
Valid _ w = IsValid w

module _ (os : Os) (scandir : (Entry → Entry → Ordering) → Bytes → List Entry) where
  reply-IsValid :
      (c : ℤ) (text : Bytes) (w : World Shared)
      → IsValid w
      → Ensures Valid (reply os scandir c text w)
  unfolding reply
  reply-IsValid c text w h = record {
    absolute = h.absolute;
    short = h.short;
    port_low = h.port_low;
    few = h.few;
  }

  -- A call changes none of the variables.
  later :
      (w : World Shared) (c : ℤ) (s : Bytes) {r : ℤ}
      → IsValid w
      → IsValid (record { state = w.state; history = sent c s r ∷ w.history })
  later w c s h = record {
    absolute = h.absolute;
    short = h.short;
    port_low = h.port_low;
    few = h.few;
  }

  send_all-IsValid :
      (fuel : ℕ) (c : ℤ) (s : Bytes) (w : World Shared)
      → IsValid w
      → Ensures Valid (send_all os scandir fuel c s w)
  unfolding send_all
  send_all-IsValid zero c s w h = h
  send_all-IsValid (suc fuel) c [] w h = h
  send_all-IsValid (suc fuel) c (d ∷ s) w h = elim (ℤ-cases (os.send w.history c (d ∷ s))) [
    | inl e ↦ rw e (later w c (d ∷ s) h)
    | inr (inl (k, e)) ↦ rw e (send_all-IsValid fuel c (drop k s) _ (later w c (d ∷ s) h))
    | inr (inr (k, e)) ↦ rw e (later w c (d ∷ s) h)
  ]

  handle_pwd-IsValid :
      (c : ℤ) (w : World Shared) → IsValid w → Ensures Valid (handle_pwd os scandir c w)
  unfolding handle_pwd
  handle_pwd-IsValid c w h =
      Ensures-lift Valid (fit 2048 (codes "257 \"" ++ (w.state.root_path ++ codes "\" OK\r\n")))
        (reply os scandir c) w (λ a _. reply-IsValid c a w h)

  handle_pasv-IsValid :
      (c : ℤ) (w : World Shared) → IsValid w → Ensures Valid (handle_pasv os scandir c w)
  unfolding handle_pasv reply
  handle_pasv-IsValid c w h = ground arith

  send_list-IsValid :
      (c fd : ℤ) (s : Bytes) (w : World Shared)
      → IsValid w
      → Ensures Valid (send_list os scandir c fd s w)
  unfolding send_list reply
  send_list-IsValid c fd s w h =
      Ensures-bind (send_all os scandir (length s) fd s w) (λ _. end_list os scandir c fd)
        (send_all-IsValid (length s) fd s w h)
        (λ _. record {
          at = λ w' h'. record {
            absolute = h'.absolute;
            short = h'.short;
            port_low = h'.port_low;
            few = h'.few;
          };
        })

  handle_list-IsValid :
      (c : ℤ) (w : World Shared) → IsValid w → Ensures Valid (handle_list os scandir c w)
  unfolding handle_list reply
  handle_list-IsValid c w h = elim (Bool-cases (is_positive w.state.data_socket)) [
    | inl e ↦ rw e (
        Ensures-lift Valid
          (some_text os scandir (create_list (scandir compare_entries w.state.root_path) none))
          (send_list os scandir c w.state.data_socket) _
          (λ text _.
            send_list-IsValid c w.state.data_socket text _ (later w c (codes "150 OK\r\n") h)))
    | inr e ↦ rw e (later w c (codes "425 Failed to open data connection\r\n") h)
  ]

  handle_cwd-IsValid :
      (c : ℤ) (rest : Bytes) (w : World Shared)
      → IsValid w
      → Ensures Valid (handle_cwd os scandir c rest w)
  unfolding handle_cwd reply
  handle_cwd-IsValid c rest w h = elim (Outcome-cases (enter_folder w.state.root_path rest)) [
    | inl u ↦ rw u tt
    | inr (path, e) ↦
        let (a, l) = enter_folder-IsAbsolute w.state.root_path rest path h.absolute e in
        rw e (record { absolute = a; short = l; port_low = h.port_low; few = h.few })
  ]

  handle_cdup-IsValid :
      (c : ℤ) (w : World Shared) → IsValid w → Ensures Valid (handle_cdup os scandir c w)
  unfolding handle_cdup reply
  handle_cdup-IsValid c w h =
      let (path, e, a, l) = parent_folder-IsAbsolute w.state.root_path h.absolute in
      let short = h.short in
      rw e (record {
        absolute = a;
        short = omega (arith, l, short);
        port_low = h.port_low;
        few = h.few;
      })

  pub admit_client-IsValid :
      (listener : ℤ) (w : World Shared)
      → IsValid w
      → Ensures Valid (admit_client os scandir listener w)
  unfolding admit_client reply
  admit_client-IsValid listener w h = elim (Bool-cases (ltb (length w.state.clients) 1024)) [
    | inl e ↦ rw e (record {
      absolute = h.absolute;
      short = h.short;
      port_low = h.port_low;
      few = omega (
        arith,
        ltb→lt (length w.state.clients) 1024 e,
        length-append w.state.clients (os.accept w.history listener ∷ []),
      );
    })
    | inr e ↦ rw e tt
  ]

  pub choose :
      (b : Bool) (m k : Server) (w : World Shared)
      → Ensures Valid (m w)
      → Ensures Valid (k w)
      → Ensures Valid ((if b then m else k) w)
  choose true m k w h g = h
  choose false m k w h g = g

  -- Every command keeps the variables in order.
  pub run_command-IsValid :
      (c : ℤ) (text : Bytes) (command : FtpCommand) (w : World Shared)
      → IsValid w
      → Ensures Valid (run_command os scandir c text command w)
  unfolding run_command
  run_command-IsValid c text user w h = reply-IsValid c (codes "331 OK\r\n") w h
  run_command-IsValid c text pass w h = reply-IsValid c (codes "230 OK\r\n") w h
  run_command-IsValid c text syst w h = reply-IsValid c (codes "215 UNIX Type: L8\r\n") w h
  run_command-IsValid c text feat w h =
      reply-IsValid c
        (codes
          "211-Features:\r\n EPRT\r\n EPSV\r\n MDTM\r\n PASV\r\n REST STREAM\r\n SIZE\r\n TVFS\r\n211 End\r\n")
        w h
  run_command-IsValid c text opts w h = reply-IsValid c (codes "200 OK\r\n") w h
  run_command-IsValid c text pwd w h = handle_pwd-IsValid c w h
  run_command-IsValid c text type w h = reply-IsValid c (codes "200 OK\r\n") w h
  run_command-IsValid c text pasv w h = handle_pasv-IsValid c w h
  run_command-IsValid c text list w h = handle_list-IsValid c w h
  run_command-IsValid c text cwd w h = handle_cwd-IsValid c (before is_nul (drop 4 text)) w h
  run_command-IsValid c text cdup w h = handle_cdup-IsValid c w h
  run_command-IsValid c text other w h =
      reply-IsValid c (codes "202 Command not implemented\r\n") w h
