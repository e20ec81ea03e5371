-- ===== src/SelectFtp/Tests.antt =====
-- The loop of np22.c with a client that asks for its folder.
use Prim.Native.Nat.{Ordering}
use hust_network_programming.Base.{◌≡◌, refl, arith, List, [], ◌∷◌, inl, pos, none, false, length}
use hust_network_programming.CText.{Bytes, codes}
use hust_network_programming.Outcome.{done}
use hust_network_programming.System.{Os, World, sent, accepted}
use hust_network_programming.HttpUpload.{Entry}
use hust_network_programming.SelectFtp.{Shared, initial, handle_cwd, handle_cdup}
use hust_network_programming.SelectFtp.Loop.{handle_cdup-handle_cwd}

abbrev os : Os
os = record {
  socket = λ h. pos 5;
  bind = λ h fd port. pos 0;
  connect = λ h fd ip port. pos 0;
  accept = λ h fd. pos 4;
  send = λ h fd s. pos (length s);
  recv = λ h fd n. codes "PWD";
  stream = λ h fd. [];
  stat = λ h path. none;
  opendir = λ h path. none;
  open_read = λ h path. none;
  open_write = λ h path. false;
  time_text = λ h. [];
}

abbrev no_entries : (Entry → Entry → Ordering) → Bytes → List Entry
no_entries order path = []

abbrev first : World Shared
first = record { state = initial; history = [] }

abbrev greeted : World Shared
greeted = record {
  state = record initial { clients = pos 4 ∷ [] };
  history = sent (pos 4) (codes "220 MY FTP SERVER\r\n") (pos 19) ∷ accepted (pos 3) (pos 4) ∷ [];
}

handle_cdup-handle_cwd_example :
    (w1 w2 : World Shared) × (handle_cwd os no_entries (pos 4) (b'a' ∷ b'\r' ∷ b'\n' ∷ []) first
      ≡ done (tt, w1))
    × (handle_cdup os no_entries (pos 6) w1 ≡ done (tt, w2))
    × (w2.state ≡ first.state)
handle_cdup-handle_cwd_example =
    handle_cdup-handle_cwd os no_entries first (pos 4) (pos 6) [] b'a' (inl refl) (refl, tt) refl
      (omega arith)
