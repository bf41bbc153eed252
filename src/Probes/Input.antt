-- ===== src/Probes/Input.antt =====
-- NtProcessStartup of native/input-probe.c: it shows the pointers and the handles that a native process
-- starts with, and what one read of the standard input gives. NtTerminateProcess does not return.
pub mod Shown
use win0_doom.Shared.{ℕ, ◌%◌, ◌^◌, List, [], ◌∷◌, ◌++◌, Option, none, some}
use win0_doom.Client.Path.{codes}
use win0_doom.Client.Text.{probe_hex_text}

-- A pointer that is not null, and what it points to.
pub record Pointer (A : Type 0) : Type 0 where
  pub address : ℕ
  pub target : A

abbrev pub address_of : {A : Type 0} → Option (Pointer A) → ℕ
address_of none = 0
address_of (some p) = p.address

-- WIN0DOOM_PROCESS_PARAMETERS_HEAD, the fields that the program reads.
pub record ProcessParameters : Type 0 where
  pub console_handle : ℕ
  pub standard_input : ℕ
  pub standard_output : ℕ
  pub standard_error : ℕ

pub record Peb : Type 0 where
  pub process_parameters : Option (Pointer ProcessParameters)

-- What NtReadFile answers: its status, and io_status.Information.
pub record ReadAnswer : Type 0 where
  pub status : ℕ
  pub information : ℕ

-- The texts given to print_text and print_hex, and the calls of the system.
pub data ProbeCall : Type 0 where
  show_text : (text : List ℕ) → ProbeCall
  show_number : (text : List ℕ) → ProbeCall
  read_file : (handle length : ℕ) → ProbeCall
  terminate : (status : ℕ) → ProbeCall

abbrev hex : ℕ → ProbeCall
hex value = show_number (probe_hex_text value)

-- The parameters, once it is known that the pointers are not null.
abbrev pub parameters_of : Option (Pointer Peb) → Option (Pointer ProcessParameters)
parameters_of none = none
parameters_of (some peb) = peb.target.process_parameters

-- STATUS_INVALID_PARAMETER
abbrev pub status_invalid_parameter : ℕ
status_invalid_parameter = 0xc000000d

-- From the first print on.
pub show_input :
    (peb : ℕ)
    → Option (Pointer ProcessParameters)
    → (read : (handle length : ℕ) → ReadAnswer) → List ProbeCall
show_input peb none read =
    show_text (codes "\r\nwin0 input probe\r\npeb: ")
    ∷ hex peb
    ∷ show_text (codes "\r\nprocess parameters: ")
    ∷ hex 0
    ∷ show_text (codes "\r\nno process parameters.\r\n")
    ∷ terminate status_invalid_parameter
    ∷ []
show_input peb (some p) read =
    let answer = read p.target.standard_input 64 in
    show_text (codes "\r\nwin0 input probe\r\npeb: ")
    ∷ hex peb
    ∷ show_text (codes "\r\nprocess parameters: ")
    ∷ hex p.address
    ∷ show_text (codes "\r\nconsole: ")
    ∷ hex p.target.console_handle
    ∷ show_text (codes "\r\nstdin:   ")
    ∷ hex p.target.standard_input
    ∷ show_text (codes "\r\nstdout:  ")
    ∷ hex p.target.standard_output
    ∷ show_text (codes "\r\nstderr:  ")
    ∷ hex p.target.standard_error
    ∷ show_text (codes "\r\n\r\nwaiting for one ntreadfile on stdin; press a key...\r\n")
    ∷ read_file p.target.standard_input 64
    ∷ show_text (codes "ntreadfile returned ")
    ∷ hex (answer.status % 2 ^ 32)
    ∷ show_text (codes "; bytes: ")
    ∷ hex answer.information
    ∷ show_text (codes "\r\n")
    ∷ terminate answer.status
    ∷ []

pub input_startup :
    Option (Pointer Peb) → (read : (handle length : ℕ) → ReadAnswer) → List ProbeCall
unfolding show_input
input_startup peb read = show_input (address_of peb) (parameters_of peb) read
