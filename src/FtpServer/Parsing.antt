-- ===== src/FtpServer/Parsing.antt =====
-- How server.c reads a command from a received buffer.
use hust_network_programming.Base.{
  ℕ, ◌≡◌, refl, true, false, List, [], ◌∷◌, ◌++◌, arith, ◌==◌, ap, ◌∙◌,
}
use mathlib.Core.Path.{ap₂}
use hust_network_programming.CText.{
  Bytes, None, before-append, from-append, before_all, str_case_eq, before, from, is_space,
  is_line_end, skip_space, scan_word,
}
use hust_network_programming.Account.{Account}
use hust_network_programming.System.{Os, World}
use hust_network_programming.FtpServer.{ClientSession, crlf}
use hust_network_programming.FtpServer.Thread.{command_of, split_command, handle_buffer, both}
use hust_network_programming.Outcome.{done, fit, fit-done}
use hust_network_programming.Base.{length, ◌<◌}

str_case_eq_trans : (a b t : Bytes) → str_case_eq a b ≡ true → str_case_eq a t ≡ str_case_eq b t
unfolding str_case_eq
str_case_eq_trans [] [] t h = refl
str_case_eq_trans [] (y ∷ b) t h = cc h
str_case_eq_trans (x ∷ a) [] t h = cc h
str_case_eq_trans (x ∷ a) (y ∷ b) [] h = refl
str_case_eq_trans (x ∷ a) (y ∷ b) (z ∷ t) h = ground (arith, str_case_eq_trans a b t)

-- Names that differ in the case of letters only are the same command.
pub command_of_case : (a b : Bytes) → str_case_eq a b ≡ true → command_of a ≡ command_of b
unfolding command_of
command_of_case a b h = simp (λ (t : Bytes). str_case_eq_trans a b t h)

-- A command line without line ends, of which a received buffer may hold more behind the first line
-- end, is the only one that is handled: what follows it in the buffer is lost.
pub handle_buffer_first_line :
    (os : Os) (accounts : List Account) (server_ip line more : Bytes) (w : World ClientSession)
    → None is_line_end line
    → handle_buffer os accounts server_ip (line ++ (crlf ++ more)) w
      ≡ handle_buffer os accounts server_ip (line ++ crlf) w
unfolding handle_buffer
handle_buffer_first_line os accounts server_ip line more w h = rw (
  before-append is_line_end line b'\r' (b'\n' ∷ more) h refl,
  before-append is_line_end line b'\r' (b'\n' ∷ []) h refl,
)

skip_space_none : (c : ℕ) (s : Bytes) → is_space c ≡ false → skip_space (c ∷ s) ≡ c ∷ s
unfolding skip_space
skip_space_none c s e = ground arith

skip_space_one : (d : ℕ) (s : Bytes) → is_space d ≡ false → skip_space (b' ' ∷ d ∷ s) ≡ d ∷ s
unfolding skip_space
skip_space_one d s e = ground arith

pub scan_word-append :
    (c : ℕ) (name rest : Bytes)
    → None is_space (c ∷ name)
    → scan_word ((c ∷ name) ++ (b' ' ∷ rest)) ≡ (c ∷ name, b' ' ∷ rest)
unfolding scan_word
scan_word-append c name rest h =
    ap (λ t. (before is_space t, from is_space t)) (skip_space_none c (name ++ (b' ' ∷ rest)) h.0)
    ∙ ap₂ (λ a b. (a, b)) (before-append is_space (c ∷ name) b' ' rest h refl)
        (from-append is_space (c ∷ name) b' ' rest h refl)

-- A word of less than 16 bytes, a space and a parameter of less than 4096 bytes are told apart. The
-- word has no white space, and the parameter begins with none and holds no newline; neither is empty.
pub split_command-append :
    (c : ℕ) (name : Bytes) (d : ℕ) (param : Bytes)
    → None is_space (c ∷ name)
    → is_space d ≡ false
    → None (λ x. x == b'\n') (d ∷ param)
    → length (c ∷ name) < 16
    → length (d ∷ param) < 4096
    → split_command ((c ∷ name) ++ (b' ' ∷ d ∷ param)) ≡ done (c ∷ name, d ∷ param)
unfolding split_command
split_command-append c name d param h e f small short =
    let parameter : before (λ x. x == b'\n') (skip_space (b' ' ∷ d ∷ param)) ≡ d ∷ param =
      ap (before (λ x. x == b'\n')) (skip_space_one d param e)
      ∙ before_all (λ x. x == b'\n') (d ∷ param) f in
    ap (λ t. both (fit 16 t.0) (fit 4096 (before (λ x. x == b'\n') (skip_space t.1))))
      (scan_word-append c name (d ∷ param) h)
    ∙ ap (λ t. both (fit 16 (c ∷ name)) (fit 4096 t)) parameter
    ∙ ap₂ both (fit-done 16 (c ∷ name) small) (fit-done 4096 (d ∷ param) short)
