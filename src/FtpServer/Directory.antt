-- ===== src/FtpServer/Directory.antt =====
-- CWD and CDUP of ftp_server.c, together.
use hust_network_programming.Base.{
  ℕ, ◌≤◌, ◌≡◌, refl, true, false, [], ◌∷◌, ◌++◌, arith, length, some, none, length-append, inl, inr,
  Bool-cases,
}
use hust_network_programming.CText.{
  Bytes, codes, before_last, str_eq, strncpy, strncpy_short, Avoids, str_eq_iff,
}
use hust_network_programming.Outcome.{done}
use hust_network_programming.System.{Os, World, sent, looked_up, ◌>>◌}
use hust_network_programming.FtpServer.{
  ClientSession, starts_with_slash, slash, new_path, parent_dir, is_directory, handle_cwd,
  handle_cdup,
}
use hust_network_programming.FtpServer.Invariant.{new_path-done}

before_last-none : (c : ℕ) (s : Bytes) → Avoids c s → before_last c s ≡ none
unfolding before_last
before_last-none c [] h = refl
before_last-none c (x ∷ s) h = rw (before_last-none c s h.1) (rw h.0 refl)

before_last-append : (c : ℕ) (a b : Bytes) → Avoids c b → before_last c (a ++ (c ∷ b)) ≡ some a
unfolding before_last
before_last-append c [] b h = rw (before_last-none c b h) (ground arith)
before_last-append c (x ∷ a) b h = rw (before_last-append c a b h) refl

parent_dir-append :
    (c : ℕ) (d name : Bytes) → Avoids b'/' name → parent_dir ((c ∷ d) ++ (slash ++ name)) ≡ c ∷ d
unfolding parent_dir before_last
parent_dir-append c d name h = rw (before_last-append b'/' (c ∷ d) name h) refl

parent_dir-root : (name : Bytes) → Avoids b'/' name → parent_dir (slash ++ name) ≡ slash
unfolding parent_dir before_last
parent_dir-root name h = rw (before_last-append b'/' [] name h) refl

starts_with_slash-Avoids : (name : Bytes) → Avoids b'/' name → starts_with_slash name ≡ false
starts_with_slash-Avoids [] h = refl
starts_with_slash-Avoids (c ∷ name) h = h.0

-- The parent of a directory that CWD reaches by a name without `/` is where CWD started.
parent_dir-new_path :
    (dir name target : Bytes)
    → starts_with_slash dir ≡ true
    → Avoids b'/' name
    → new_path dir name ≡ done target
    → parent_dir target ≡ dir
unfolding new_path
parent_dir-new_path [] name target a h e = cc a
parent_dir-new_path (c ∷ d) name target a h e = elim (Bool-cases (str_eq (c ∷ d) slash)) [
  | inl r ↦ ground (
    arith,
    parent_dir-root name h,
    starts_with_slash-Avoids name h,
    (str_eq_iff (c ∷ d) slash).0 r,
  )
  | inr r ↦ ground (arith, r, parent_dir-append c d name h, starts_with_slash-Avoids name h)
]

-- After a CWD that succeeds.
abbrev entered : Os → Bytes → World ClientSession → World ClientSession
entered os target w =
    let fd = w.state.ctrl_socket in
    let h1 = looked_up (w.state.root_dir ++ target) ∷ w.history in
    let changed = codes "250 Directory changed\r\n" in
    record {
      state = record w.state { current_dir = strncpy 511 target };
      history = sent fd changed (os.send h1 fd changed) ∷ h1;
    }

handle_cwd_found :
    (os : Os) (name target : Bytes) (w : World ClientSession)
    → w.state.logged_in ≡ true
    → starts_with_slash w.state.current_dir ≡ true
    → length w.state.root_dir ≤ 511
    → new_path w.state.current_dir name ≡ done target
    → is_directory (os.stat w.history (w.state.root_dir ++ target)) ≡ true
    → handle_cwd os name w ≡ done (tt, entered os target w)
unfolding handle_cwd
handle_cwd_found os name target w l a r e d =
    let fits = new_path-done w.state.current_dir name target e a in
    ground (arith, fits, length-append w.state.root_dir target)

handle_cdup_lem :
    (os : Os) (w : World ClientSession)
    → w.state.logged_in ≡ true
    → handle_cdup os w
      ≡ done (
        tt,
        record {
          state = record w.state { current_dir = parent_dir w.state.current_dir };
          history =
              sent w.state.ctrl_socket (codes "250 Directory changed to parent\r\n") (
                os.send w.history w.state.ctrl_socket (codes "250 Directory changed to parent\r\n"))
              ∷ w.history;
        },
      )
unfolding handle_cdup
handle_cdup_lem os w l = ground arith

-- The calls of CWD and CDUP where both succeed, newest first.
abbrev pub down_and_up : Os → Bytes → World ClientSession → World ClientSession
down_and_up os target w =
    let fd = w.state.ctrl_socket in
    let h1 = looked_up (w.state.root_dir ++ target) ∷ w.history in
    let changed = codes "250 Directory changed\r\n" in
    let h2 = sent fd changed (os.send h1 fd changed) ∷ h1 in
    let parent = codes "250 Directory changed to parent\r\n" in
    record w { history = sent fd parent (os.send h2 fd parent) ∷ h2 }

-- CWD into a subdirectory by its name and then CDUP come back: both succeed, they look up the new
-- path and send two replies, and the session is as before. The session is logged in, its paths fit
-- and its directory begins with `/`; the name has no `/`, the new path fits in `new_path`, and
-- `stat` finds a directory there.
pub handle_cwd-handle_cdup :
    (os : Os) (name target : Bytes) (w : World ClientSession)
    → w.state.logged_in ≡ true
    → starts_with_slash w.state.current_dir ≡ true
    → length w.state.root_dir ≤ 511
    → Avoids b'/' name
    → new_path w.state.current_dir name ≡ done target
    → is_directory (os.stat w.history (w.state.root_dir ++ target)) ≡ true
    → (handle_cwd os name >> handle_cdup os) w ≡ done (tt, down_and_up os target w)
handle_cwd-handle_cdup os name target w l a r h e d =
    let fits = new_path-done w.state.current_dir name target e a in
    ground (
      arith,
      handle_cwd_found os name target w l a r e d,
      handle_cdup_lem os (entered os target w) l,
      strncpy_short 511 target fits.1,
      parent_dir-new_path w.state.current_dir name target a h e,
    )
