-- ===== src/Kernel/Gui/Tests.antt =====
-- Keys and the mouse on a desktop of src/gui/Compositor.cpp with one window.
use swish_kernel.Prelude.{true, [], ◌∷◌}
use swish_kernel.Input.{key, mouse_button, mouse_move}
use swish_kernel.Render.Tests.{desktop, stack, desktop-Shows}
use swish_kernel.Kernel.Tests.{kernel}
use swish_kernel.Kernel.Gui.{plain, carry_all, promise_calls, Follows, carry_all-Follows}

carry_all-Follows_example :
    Follows
      (carry_all
        (λ w. plain)
        (key b'a' ∷ mouse_move 130 55 ∷ mouse_button 130 55 true ∷ [])
        kernel.session
        desktop)
      (promise_calls
        (λ w. plain)
        (key b'a' ∷ mouse_move 130 55 ∷ mouse_button 130 55 true ∷ [])
        kernel.session
        stack)
carry_all-Follows_example =
    carry_all-Follows (λ w. plain) (key b'a' ∷ mouse_move 130 55 ∷ mouse_button 130 55 true ∷ [])
      kernel.session desktop stack desktop-Shows
