-- ===== src/Pelikan/Interrupts.antt =====
-- pelikanOS/src/isr.c, pelikanOS/src/pic.c, pelikanOS/src/clock.c and the timer of
-- pelikanOS/src/kernel.c. A write to a port is an entry in the list of the writes so far; what is read
-- from the keyboard's port and from CR2 is an argument.
use systems_programming_proj.Prelude.{
  ℕ, ◌+◌, ◌/◌, ◌%◌, ◌^◌, List, [], ◌∷◌, ◌++◌, get_or, ltb, ◌==◌, if◌then◌else◌,
}
use systems_programming_proj.Pelikan.Itoa.{itoa}
use systems_programming_proj.Pelikan.Vga.{Vga, print, print_at}
use systems_programming_proj.Pelikan.Keyboard.{Rb, keyboard_handler}

abbrev pub Writes : Type 0
Writes = List (ℕ × ℕ)

pub record Frame : Type 0 where
  pub ir_num : ℕ
  pub err_code : ℕ
  pub eip : ℕ

pub record Cpu : Type 0 where
  pub ticks : ℕ
  pub writes : Writes
  pub rb : Rb
  pub vga : Vga

-- How the handler ends: it switches to the scheduler, it returns to what was interrupted, or it halts
-- for ever.
pub data IsrEnd : Type 0 where
  yields : IsrEnd
  resumes : IsrEnd
  stops : IsrEnd

unfoldable pub outb : (port value : ℕ) → Writes → Writes
outb port value writes = writes ++ (port, value) ∷ []

abbrev pub exception_names : List (List ℕ)
exception_names =
    (b'D' ∷ b'i' ∷ b'v' ∷ b'i' ∷ b'd' ∷ b'e' ∷ b' ' ∷ b'b' ∷ b'y' ∷ b' ' ∷ b'z' ∷ b'e' ∷ b'r' ∷ b'o'
      ∷ [])
    ∷ (b'D' ∷ b'e' ∷ b'b' ∷ b'u' ∷ b'g' ∷ [])
    ∷ (b'N' ∷ b'M' ∷ b'I' ∷ [])
    ∷ (b'B' ∷ b'r' ∷ b'e' ∷ b'a' ∷ b'k' ∷ b'p' ∷ b'o' ∷ b'i' ∷ b'n' ∷ b't' ∷ [])
    ∷ (b'O' ∷ b'v' ∷ b'e' ∷ b'r' ∷ b'f' ∷ b'l' ∷ b'o' ∷ b'w' ∷ [])
    ∷ (b'B' ∷ b'o' ∷ b'u' ∷ b'n' ∷ b'd' ∷ b' ' ∷ b'r' ∷ b'a' ∷ b'n' ∷ b'g' ∷ b'e' ∷ [])
    ∷ (b'I' ∷ b'n' ∷ b'v' ∷ b'a' ∷ b'l' ∷ b'i' ∷ b'd' ∷ b' ' ∷ b'o' ∷ b'p' ∷ b'c' ∷ b'o' ∷ b'd'
        ∷ b'e' ∷ [])
    ∷ (b'D' ∷ b'e' ∷ b'v' ∷ b'i' ∷ b'c' ∷ b'e' ∷ b' ' ∷ b'n' ∷ b'o' ∷ b't' ∷ b' ' ∷ b'a' ∷ b'v'
        ∷ b'a' ∷ b'i' ∷ b'l' ∷ b'a' ∷ b'b' ∷ b'l' ∷ b'e' ∷ [])
    ∷ (b'D' ∷ b'o' ∷ b'u' ∷ b'b' ∷ b'l' ∷ b'e' ∷ b' ' ∷ b'f' ∷ b'a' ∷ b'u' ∷ b'l' ∷ b't' ∷ [])
    ∷ (b'C' ∷ b'o' ∷ b'p' ∷ b'r' ∷ b'o' ∷ b'c' ∷ b'e' ∷ b's' ∷ b's' ∷ b'o' ∷ b'r' ∷ b' ' ∷ b'o'
        ∷ b'v' ∷ b'e' ∷ b'r' ∷ b'r' ∷ b'u' ∷ b'n' ∷ [])
    ∷ (b'I' ∷ b'n' ∷ b'v' ∷ b'a' ∷ b'l' ∷ b'i' ∷ b'd' ∷ b' ' ∷ b'T' ∷ b'S' ∷ b'S' ∷ [])
    ∷ (b'S' ∷ b'e' ∷ b'g' ∷ b'm' ∷ b'e' ∷ b'n' ∷ b't' ∷ b' ' ∷ b'n' ∷ b'o' ∷ b't' ∷ b' ' ∷ b'p'
        ∷ b'r' ∷ b'e' ∷ b's' ∷ b'e' ∷ b'n' ∷ b't' ∷ [])
    ∷ (b'S' ∷ b't' ∷ b'a' ∷ b'c' ∷ b'k' ∷ b'-' ∷ b's' ∷ b'e' ∷ b'g' ∷ b'm' ∷ b'e' ∷ b'n' ∷ b't'
        ∷ b' ' ∷ b'f' ∷ b'a' ∷ b'u' ∷ b'l' ∷ b't' ∷ [])
    ∷ (b'G' ∷ b'e' ∷ b'n' ∷ b'e' ∷ b'r' ∷ b'a' ∷ b'l' ∷ b' ' ∷ b'p' ∷ b'r' ∷ b'o' ∷ b't' ∷ b'e'
        ∷ b'c' ∷ b't' ∷ b'i' ∷ b'o' ∷ b'n' ∷ [])
    ∷ (b'P' ∷ b'a' ∷ b'g' ∷ b'e' ∷ b' ' ∷ b'f' ∷ b'a' ∷ b'u' ∷ b'l' ∷ b't' ∷ [])
    ∷ []

abbrev pub report_line : (label : List ℕ) → ℕ → Vga → Vga
report_line label n vga = print (10 ∷ []) (print (itoa n) (print label vga))

unfoldable pub page_fault : (cr2 : ℕ) → Frame → Vga → Vga
page_fault cr2 frame vga = report_line (b'e' ∷ b'r' ∷ b'r' ∷ b':' ∷ b' ' ∷ []) frame.err_code (
    report_line (b'e' ∷ b'i' ∷ b'p' ∷ b':' ∷ b' ' ∷ []) frame.eip (
      report_line (b'a' ∷ b'd' ∷ b'd' ∷ b'r' ∷ b':' ∷ b' ' ∷ []) cr2 (
        print (b'P' ∷ b'A' ∷ b'G' ∷ b'E' ∷ b' ' ∷ b'F' ∷ b'A' ∷ b'U' ∷ b'L' ∷ b'T' ∷ 10 ∷ []) vga)))

unfoldable pub exception : Frame → Vga → Vga
exception frame vga =
    let name =
      if ltb frame.ir_num 15
      then get_or exception_names frame.ir_num []
      else (b'r' ∷ b'e' ∷ b's' ∷ b'e' ∷ b'r' ∷ b'v' ∷ b'e' ∷ b'd' ∷ b'/' ∷ b'u' ∷ b'n' ∷ b'k' ∷ b'n'
          ∷ b'o' ∷ b'w' ∷ b'n' ∷ []) in
    report_line (b'e' ∷ b'r' ∷ b'r' ∷ b':' ∷ b' ' ∷ []) frame.err_code (
      report_line (b'e' ∷ b'i' ∷ b'p' ∷ b':' ∷ b' ' ∷ []) frame.eip (
        report_line (b'v' ∷ b'e' ∷ b'c' ∷ b':' ∷ b' ' ∷ []) frame.ir_num (
          print (10 ∷ []) (
            print name (
              print
                (b'E' ∷ b'X' ∷ b'C' ∷ b'E' ∷ b'P' ∷ b'T' ∷ b'I' ∷ b'O' ∷ b'N' ∷ b':' ∷ b' ' ∷ [])
                vga)))))

unfoldable pub isr_handler : (scancode cr2 : ℕ) → Frame → Cpu → IsrEnd × Cpu
isr_handler scancode cr2 frame cpu =
    if frame.ir_num == 32
    then (
      yields,
      record cpu { ticks = (cpu.ticks + 1) % 2 ^ 32; writes = outb 0x20 0x20 cpu.writes },
    )
    else if frame.ir_num == 33
    then (
      resumes,
      record cpu { rb = keyboard_handler scancode cpu.rb; writes = outb 0x20 0x20 cpu.writes },
    )
    else if frame.ir_num == 14
    then (stops, record cpu { vga = page_fault cr2 frame cpu.vga })
    else if ltb frame.ir_num 32
    then (stops, record cpu { vga = exception frame cpu.vga })
    else (resumes, cpu)

unfoldable pub pic_remap : Writes → Writes
pic_remap writes = outb 0xA1 0x00 (
    outb 0x21 0x00 (
      outb 0xA1 0x01 (
        outb 0x21 0x01 (
          outb 0xA1 0x02 (
            outb 0x21 0x04
              (outb 0xA1 0x28 (outb 0x21 0x20 (outb 0xA0 0x11 (outb 0x20 0x11 writes)))))))))

-- A frequency of 0 would be a division by 0.
unfoldable pub pit_init : (freq : ℕ) → Writes → Writes
pit_init freq writes =
    let divisor = 1193182 / freq in
    outb 0x40 (divisor / 2 ^ 8 % 2 ^ 8) (outb 0x40 (divisor % 2 ^ 8) (outb 0x43 0x36 writes))

-- A round of `clock_thread`.
unfoldable pub clock_round : (ticks : ℕ) → Vga → Vga
clock_round ticks vga = print_at 0 74 (itoa ticks) (
    print_at 0 68
      (b't' ∷ b'i' ∷ b'c' ∷ b'k' ∷ b's' ∷ b':' ∷ b' ' ∷ b' ' ∷ b' ' ∷ b' ' ∷ b' ' ∷ b' ' ∷ b' '
        ∷ b' ' ∷ [])
      vga)
