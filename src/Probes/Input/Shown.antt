-- ===== src/Probes/Input/Shown.antt =====
-- What the input probe shows and reads.
use win0_doom.Shared.{ℕ, ◌%◌, ◌^◌, ◌<◌, ◌≡◌, refl, ap₂, List, [], ◌∷◌, Option, none, some, drop}
use win0_doom.Client.Text.{probe_hex_text}
use win0_doom.Client.Text.Hex.{hex_value, probe_hex_text_reads}
use win0_doom.Probes.Input.{
  Pointer, address_of, ProcessParameters, Peb, ReadAnswer, ProbeCall, show_number, read_file,
  terminate, parameters_of, status_invalid_parameter, show_input, input_startup,
}

-- The numbers that can be read off the screen.
abbrev pub numbers_shown : List ProbeCall → List ℕ
numbers_shown [] = []
numbers_shown (show_number text ∷ calls) = hex_value 0 (drop 2 text) ∷ numbers_shown calls
numbers_shown (_ ∷ calls) = numbers_shown calls

-- The calls of the system.
abbrev pub system_calls : List ProbeCall → List ProbeCall
system_calls [] = []
system_calls (read_file handle length ∷ calls) = read_file handle length ∷ system_calls calls
system_calls (terminate status ∷ calls) = terminate status ∷ system_calls calls
system_calls (_ ∷ calls) = system_calls calls

-- The numbers to show, and the calls to make.
abbrev pub numbers :
    Option (Pointer ProcessParameters) → ((handle length : ℕ) → ReadAnswer) → List ℕ
numbers none read = []
numbers (some p) read =
    p.target.console_handle
    ∷ p.target.standard_input
    ∷ p.target.standard_output
    ∷ p.target.standard_error
    ∷ (read p.target.standard_input 64).status % 2 ^ 32
    ∷ (read p.target.standard_input 64).information
    ∷ []

abbrev pub calls_for :
    Option (Pointer ProcessParameters) → ((handle length : ℕ) → ReadAnswer) → List ProbeCall
calls_for none read = terminate status_invalid_parameter ∷ []
calls_for (some p) read =
    read_file p.target.standard_input 64 ∷ terminate (read p.target.standard_input 64).status ∷ []

abbrev pub AllFit : List ℕ → Type 0
AllFit [] = Unit
AllFit (n ∷ ns) = (n < 2 ^ 64) × AllFit ns

reads_back : (value : ℕ) → value < 2 ^ 64 → hex_value 0 (drop 2 (probe_hex_text value)) ≡ value
reads_back value h = (probe_hex_text_reads value h).2

list_of_eight :
    {a a' b b' c c' d d' e e' f f' g g' h h' : ℕ}
    → a ≡ a'
    → b ≡ b'
    → c ≡ c'
    → d ≡ d'
    → e ≡ e'
    → f ≡ f'
    → g ≡ g'
    → h ≡ h'
    → a ∷ b ∷ c ∷ d ∷ e ∷ f ∷ g ∷ h ∷ [] ≡ a' ∷ b' ∷ c' ∷ d' ∷ e' ∷ f' ∷ g' ∷ h' ∷ []
list_of_eight pa pb pc pd pe pf pg ph = rw (pa, pb, pc, pd, pe, pf, pg, ph) refl

show_input_lem :
    (peb : ℕ) (parameters : Option (Pointer ProcessParameters))
    (read : (handle length : ℕ) → ReadAnswer)
    → AllFit (peb ∷ address_of parameters ∷ numbers parameters read)
    → (numbers_shown (show_input peb parameters read)
        ≡ peb ∷ address_of parameters ∷ numbers parameters read)
      × (system_calls (show_input peb parameters read) ≡ calls_for parameters read)
unfolding show_input
show_input_lem peb none read (ha, (hp, _)) =
    (ap₂ (λ m n. m ∷ n ∷ []) (reads_back peb ha) (reads_back 0 hp), refl)
show_input_lem peb (some p) read (ha, (hp, (hc, (hi, (ho, (he, (hs, (hn, _)))))))) = (
  list_of_eight (reads_back _ ha) (reads_back _ hp) (reads_back _ hc) (reads_back _ hi)
      (reads_back _ ho) (reads_back _ he) (reads_back _ hs) (reads_back _ hn),
  refl,
)

-- The numbers that the input probe shows, read back from its hexadecimal, are the address of the
-- process environment block and of the parameters, 0 for null, and with parameters the console, the
-- three standard handles, and what the read gave. It reads the standard input once, and only where the
-- parameters are there, and ends with the read's status, or without them with
-- STATUS_INVALID_PARAMETER. The numbers fit 64 bits.
pub input_startup_shows :
    (peb : Option (Pointer Peb)) (read : (handle length : ℕ) → ReadAnswer)
    → AllFit (address_of peb ∷ address_of (parameters_of peb) ∷ numbers (parameters_of peb) read)
    → (numbers_shown (input_startup peb read)
        ≡ address_of peb ∷ address_of (parameters_of peb) ∷ numbers (parameters_of peb) read)
      × (system_calls (input_startup peb read) ≡ calls_for (parameters_of peb) read)
unfolding input_startup
input_startup_shows peb read fit = show_input_lem (address_of peb) (parameters_of peb) read fit
