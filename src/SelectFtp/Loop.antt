-- ===== src/SelectFtp/Loop.antt =====
-- What holds of np22.c after any rounds of its loop.
use Prim.Native.Nat.{Ordering}
use hust_network_programming.Base.{
  ℕ, ◌+◌, ◌<◌, ◌≡◌, refl, Bool, false, List, [], ◌∷◌, ◌++◌, length, ℤ,
}
use hust_network_programming.CText.{Bytes, codes, Avoids}
use hust_network_programming.Outcome.{Outcome, done}
use hust_network_programming.System.{Os, World, History, sent}
use hust_network_programming.HttpUpload.{Entry}
use hust_network_programming.SelectFtp.{
  Shared, initial, reply, handle_cwd, handle_cdup, round, enter_folder, parent_folder, is_line_byte,
}
use hust_network_programming.SelectFtp.Paths.{IsFolder, parent_folder-enter_folder}

module _ (os : Os) (scandir : (Entry → Entry → Ordering) → Bytes → List Entry) where
  leaves_folder :
      (w : World Shared) (c : ℤ) (path : Bytes)
      → parent_folder w.state.root_path ≡ done path
      → handle_cdup os scandir c w
        ≡ reply os scandir c
            (codes "200 OK\r\n")
            (record w { state = record w.state { root_path = path } })
  unfolding handle_cdup
  leaves_folder w c path e = rw e refl

  -- The worlds that rounds of the loop lead to.
  pub data Reachable (listener : ℤ) : World Shared → Type 0 where
    start : (h : History) → Reachable listener (record { state = initial; history = h })
    next :
        {w w' : World Shared} (connecting : Bool) (ready : ℤ → Bool)
        → Reachable listener w
        → round os scandir listener connecting ready w ≡ done (tt, w')
        → Reachable listener w'

  entered :
      (w : World Shared) (c : ℤ) (rest path : Bytes)
      → enter_folder w.state.root_path rest ≡ done path
      → handle_cwd os scandir c rest w
        ≡ reply os scandir c
            (codes "200 OK\r\n")
            (record w { state = record w.state { root_path = path } })
  unfolding handle_cwd
  entered w c rest path e = rw e refl

  -- A CWD to a folder below the shared one, from any client, is undone by a CDUP from any client: the two
  -- commands are carried out, and all shared variables are as before. The folder's name has a last byte that ends
  -- no line, it has no slash, and the path with it fits; the shared folder is the root or ends without
  -- a slash.
  pub handle_cdup-handle_cwd :
      (w : World Shared) (c c' : ℤ) (s : Bytes) (x : ℕ)
      → IsFolder w.state.root_path
      → Avoids b'/' (s ++ (x ∷ []))
      → is_line_byte x ≡ false
      → length w.state.root_path + length s < 1022
      → (w1 w2 : World Shared) × (handle_cwd os scandir c (s ++ (x ∷ b'\r' ∷ b'\n' ∷ [])) w
          ≡ done (tt, w1))
        × (handle_cdup os scandir c' w1 ≡ done (tt, w2))
        × (w2.state ≡ w.state)
  unfolding reply
  handle_cdup-handle_cwd w c c' s x root name line short =
      let (path, e, back) = parent_folder-enter_folder w.state.root_path s x root name line short in
      let w1 = record w {
        state = record w.state { root_path = path };
        history =
            sent c (codes "200 OK\r\n") (os.send w.history c (codes "200 OK\r\n")) ∷ w.history;
      } in
      (
        w1,
        record {
          state = w.state;
          history =
              sent c' (codes "200 OK\r\n") (os.send w1.history c' (codes "200 OK\r\n"))
              ∷ w1.history;
        },
        entered w c (s ++ (x ∷ b'\r' ∷ b'\n' ∷ [])) path e,
        leaves_folder w1 c' w.state.root_path back,
        refl,
      )
