-- ===== src/PeerServer/Tests.antt =====
-- Runs of the directory of peers on concrete registrations.
use hust_network_programming.Base.{◌≡◌, refl, arith, [], ◌∷◌}
use hust_network_programming.CText.{Bytes, codes, str_eq}
use hust_network_programming.CText.Decimal.{decimal}
use hust_network_programming.CText.Scan.{IsWord}
use hust_network_programming.Outcome.{done}
use hust_network_programming.PeerServer.{handle_reg, is_known, list_reply}
use hust_network_programming.PeerServer.Names.{
  handle_regs, firsts, others, listing, handle_regs-list_reply,
}

abbrev ann : Bytes
ann = b'a' ∷ []

abbrev bob : Bytes
bob = b'b' ∷ []

ann-IsWord : IsWord ann 1024
ann-IsWord = record {
  nonempty = λ e. cc e;
  no_space = (refl, tt);
  no_nul = (refl, tt);
  fits = omega arith;
}

bob-IsWord : IsWord bob 1024
bob-IsWord = record {
  nonempty = λ e. cc e;
  no_space = (refl, tt);
  no_nul = (refl, tt);
  fits = omega arith;
}

other_text : handle_reg (codes "LIST") (ann ∷ []) ≡ done (ann ∷ [])
unfolding handle_reg codes
other_text = refl

handle_regs-list_reply_example :
    (handle_regs (ann ∷ bob ∷ ann ∷ []) (done []) ≡ done (ann ∷ bob ∷ []))
    × (list_reply (ann ∷ bob ∷ []) ≡ done (codes "LIST 2 a b"))
unfolding firsts codes decimal others is_known str_eq listing
handle_regs-list_reply_example =
    handle_regs-list_reply (ann ∷ bob ∷ ann ∷ []) (ann-IsWord, (bob-IsWord, (ann-IsWord, tt)))
      (omega arith) (omega arith)
