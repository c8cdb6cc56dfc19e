-- ===== src/Shell/Tests.antt =====
-- The shell of src/kernel/Shell.cpp on an empty file system.
use swish_kernel.Prelude.{◌≡◌, refl, true, false, [], ◌∷◌, bytes_of, get_or, take}
use swish_kernel.Text.{string_eq}
use swish_kernel.Vfs.{Fs, plain}
use swish_kernel.Shell.State.{Session}
use swish_kernel.Shell.Tokens.{max_args, tokens, scan_all, scan, finish}
use swish_kernel.Shell.{
  eval_user_input, eval_words, is_shell_builtin, known_in, process_builtin, process_in, execute,
}
use swish_kernel.Shell.Words.{words_from, cut, tokens-words}
use swish_kernel.Shell.Leave.{leaves, eval_user_input-leaves}

abbrev no_files : Fs
no_files = record {
  node = λ p. record {
    name = [];
    flags = 2;
    length = 0;
    inode = 0;
    parent = 0;
    mount_target = 0;
    body = plain;
  };
  fs_root = 1;
  fresh = 2;
}

abbrev session : Session
session = record {
  home_env = bytes_of "/";
  current_directory = 1;
  fs = no_files;
  output = [];
  gui = false;
}

tokens_split :
    tokens (bytes_of " echo  two  words ")
    ≡ bytes_of "echo" ∷ bytes_of "two" ∷ bytes_of "words" ∷ []
unfolding tokens scan_all scan finish
tokens_split = refl

exit_leaves : leaves (eval_user_input (bytes_of " exit now") session) ≡ true
unfolding eval_user_input eval_words tokens scan_all scan finish is_shell_builtin known_in
    process_builtin process_in execute leaves string_eq
exit_leaves = refl

eval_user_input-leaves_example :
    string_eq (get_or (tokens (bytes_of " exit now")) 0 []) (bytes_of "exit") ≡ true
eval_user_input-leaves_example = eval_user_input-leaves (bytes_of " exit now") session exit_leaves

tokens-words_example :
    tokens (bytes_of "ls /mnt") ≡ take max_args (cut (words_from (bytes_of "ls /mnt") []))
tokens-words_example = tokens-words (bytes_of "ls /mnt")
