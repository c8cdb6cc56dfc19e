-- ===== src/Lib.antt =====
-- swish_kernel: a model of the kernel's C++ code and what is proved of it. Paths are those of the
-- repository.
--
-- The program is a kernel for x86-64. Interrupt handlers put scancodes and mouse packets into ring
-- buffers; the main loop takes them out through the input router, which edits a line for the terminal
-- or calls the compositor, whose windows run the shell. The shell works on a virtual file system in
-- memory. All of it stands on the heap and on a few routines of the C library.
--
-- The parts, each with the file that models it. A component's children hold its theorems, and its
-- child Tests runs them at concrete inputs.
--   Heap           src/kernel/memory.cpp: init_heap, kmalloc and kfree. The headers are three
--                  functions of the address; kmalloc and kfree answer an option, none for a loop out
--                  of fuel. A row of blocks (Heap/Tiles) is what the headers stand for.
--   Libc           src/libc: memcpy, memmove, memset, strlen, strncpy over byte-addressed memory.
--   RingBuffer     src/drivers/input/ring_buffer.cpp: push and pop, written once for both buffers.
--   Vector         include/kernel/Vector.hpp: the list of the items; the buffer behind it is not
--                  represented.
--   Text           src/kernel/String.cpp: its comparison and access on the bytes of a string, and in
--                  Text/Owner its constructors, destructor and assignment on the heap, through
--                  src/kernel/memory_operators.cpp.
--   Vfs            src/kernel/fs.cpp and src/kernel/ramfs.cpp: nodes in a store, by their addresses.
--                  Vfs/Resolve holds the paths. An access past an array is the result overrun.
--   Shell          src/kernel/Shell.cpp: Shell/Tokens is the loop of eval_user_input over the line,
--                  Shell/Builtins the commands, Shell the table and the dispatch. A session holds
--                  the directory, the file system and what was written to the output stream.
--   Input          src/drivers/input/input.cpp: the variables of the file as the record Router, a
--                  scancode or a mouse event as one step. What is written to cout and the calls of the
--                  compositor are lists in the record. Input/MouseEvents is a mouse event. Input/Drain
--                  follows scancodes through the ring.
--   Mouse          src/drivers/input/mouse.cpp and keyboard.cpp: the interrupt handlers, with what the
--                  ports answer as arguments, and in Mouse/Ports the set-up of the controller, which
--                  is a parameter; Mouse/Setup says what it promises.
--   Window, TerminalWindow, Compositor, Graphics
--                  src/gui: the text grid and the mouse of a window, the window that runs the shell,
--                  the doubly linked list of windows by pointers, and drawing on a surface.
--                  Compositor/Order promises for a list of windows what the pointers do. Graphics/Buffers
--                  is Graphics::initialize on the heap.
--   OutputStream   include/kernel/OutputStream.hpp, with src/terminal.cpp and a terminal window as its
--                  two classes.
--   Render, Font   Window::render and Compositor::render: a window on its own surface, the copy to the
--                  screen, the cursor, and swap_buffers; the table of glyphs.
--   Interrupts     src/arch/x86_64/interrupts.cpp: the handler for every vector.
--   Memory         initialize_physical_memory of src/kernel/memory.cpp; the answers of the boot loader
--                  are arguments.
--   Kernel         src/main.cpp: the windows and files that _start makes, and a turn of its loop.
--                  Kernel/Gui carries out the calls that the router makes of the compositor, and
--                  Kernel/Loop is a whole turn, from the event queues to the frame buffer.
--                  Kernel/Boot switches the interrupts on.
--   Idt, Pic       src/arch/x86_64/idt.cpp and src/drivers/pc/pic.cpp: the gates, and the writes to the
--                  ports in order; what a port answers is a parameter. Pic/Promises says what the
--                  controllers do with these writes, which is a parameter, too.
--   Prelude, Int   tests, lists, memory, results and signed integers that the others share.
--
-- Numbers are natural numbers; an operation on machine words writes out its modulus. Null is address
-- 0, and new answers a fresh address.
--
-- Loops that a count controls are structural. The others run on fuel: the loops of Heap and Libc
-- take it as an argument, and their theorems give an amount that is enough; vfs_resolve_path takes
-- two rounds more than the path has bytes, which the theorem on it shows to be enough;
-- list_directory takes one for each child and one more; the walks over the windows take one for each
-- node that was ever made and one more. The drains of the ring buffers take as many rounds as a
-- buffer has slots, which Input/Drain shows to be enough for the keyboard. Printing a number takes
-- one round for each byte of its array.
--
-- Not modelled: assembly and single instructions, get_line, which waits for interrupts and which
-- nothing calls, the boot protocol and the terminal emulator, which are other projects' code, and
-- the stubs of the C++ runtime. What the terminal emulator draws on its buffer is not represented,
-- nor the copies of that buffer by flush_terminal_updates. Allocations by new of windows, nodes
-- and files and those in the constructor of a window are taken to succeed; the two delete of
-- delete_window, and with them the destructor of a window, are left out. A memcpy of pixels copies
-- whole ones. The vector of the file system and the strings in its nodes are lists; only
-- Text/Owner puts strings on the heap.
pub mod Prelude
pub mod Compositor
pub mod Font
pub mod Graphics
pub mod Heap
pub mod Idt
pub mod Input
pub mod Int
pub mod Interrupts
pub mod Kernel
pub mod Libc
pub mod Memory
pub mod Mouse
pub mod OutputStream
pub mod Pic
pub mod Render
pub mod RingBuffer
pub mod Shell
pub mod TerminalWindow
pub mod Text
pub mod Vector
pub mod Vfs
pub mod Window
