-- ===== src/OutputStream/Laws.antt =====
-- What a client of include/kernel/OutputStream.hpp relies on.
use mathlib.Core.List.{append_assoc, append-nil}
use swish_kernel.Prelude.{
  ◌≡◌, refl, sym, ap, ◌∙◌, Bool, true, false, [], ◌∷◌, ◌++◌, arith, fun_ext, done, ◌>>=◌,
}
use swish_kernel.Int.{ℤ}
use swish_kernel.Text.{Bytes, string_empty}
use swish_kernel.Window.{Window, inject_key, print}
use swish_kernel.TerminalWindow.Numbers.{int_text}
use swish_kernel.OutputStream.{
  OutputStream, put_all, put_int, Terminal, flanterm_write, terminal_stream, window_stream,
}

-- A text, as a C string or as a `String`, is written character by character, and a number is written as
-- its text.
pub record IsStream {S : Type 0} (stream : OutputStream S) : Type 0 where
  pub text_is : (text : Bytes) (s : S) → stream.put_text text s ≡ put_all stream text s
  pub string_is : (text : Bytes) (s : S) → stream.put_string text s ≡ put_all stream text s
  pub int_is :
      (num : ℤ) (s : S) → put_int stream num s ≡ (int_text num >>= λ text. stream.put_text text s)

module _ {S : Type 0} (stream : OutputStream S)
    (text_is : (text : Bytes) (s : S) → stream.put_text text s ≡ put_all stream text s) where
  put_int-put_text :
      (num : ℤ) (s : S) → put_int stream num s ≡ (int_text num >>= λ text. stream.put_text text s)
  unfolding put_int
  put_int-put_text num s = ap (λ f. int_text num >>= f) (fun_ext λ text. sym (text_is text s))

  as-IsStream :
      ((text : Bytes) (s : S) → stream.put_string text s ≡ stream.put_text text s) → IsStream stream
  as-IsStream same = record {
    text_is = text_is;
    string_is = λ text s. same text s ∙ text_is text s;
    int_is = put_int-put_text;
  }

abbrev written_so_far : Bool → Bytes → Terminal
written_so_far b w = record { has_context = b; written = w }

put_all-flanterm_write :
    (text : Bytes) (b : Bool) (w : Bytes)
    → put_all terminal_stream text (written_so_far b w)
      ≡ done (flanterm_write text (written_so_far b w))
unfolding put_all terminal_stream
put_all-flanterm_write [] true w = ap (λ v. done (written_so_far true v)) (sym (append-nil w))
put_all-flanterm_write [] false w = refl
put_all-flanterm_write (c ∷ text) true w =
    put_all-flanterm_write text true (w ++ c ∷ [])
    ∙ ap (λ v. done (written_so_far true v)) (append_assoc w (c ∷ []) text)
put_all-flanterm_write (c ∷ text) false w = put_all-flanterm_write text false w

print-put_all : (text : Bytes) (w : Window) → print text w ≡ put_all window_stream text w
unfolding put_all window_stream print
print-put_all [] w = refl
print-put_all (c ∷ text) w = ap (λ f. inject_key c w >>= f) (fun_ext λ w'. print-put_all text w')

put_string-put_text :
    (text : Bytes) (b : Bool) (w : Bytes)
    → terminal_stream.put_string text (written_so_far b w)
      ≡ terminal_stream.put_text text (written_so_far b w)
unfolding terminal_stream
put_string-put_text [] true w = ap (λ v. done (written_so_far true v)) (sym (append-nil w))
put_string-put_text [] false w = refl
put_string-put_text (c ∷ text) true w =
    let some_text : string_empty (c ∷ text) ≡ false = ground arith in rw some_text refl
put_string-put_text (c ∷ text) false w = refl

-- The terminal and a terminal window both write a text, as a C string or as a `String`, as its characters
-- one after another, and a number as its text.
pub streams-IsStream : IsStream terminal_stream × IsStream window_stream
unfolding terminal_stream window_stream
streams-IsStream = (
  as-IsStream terminal_stream (λ text t. sym (put_all-flanterm_write text t.has_context t.written))
      (λ text t. put_string-put_text text t.has_context t.written),
  as-IsStream window_stream print-put_all (λ text w. refl),
)
