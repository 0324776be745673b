-- ===== src/Batch/Options/Tests.antt =====
-- internal/service/batch.go: the theorem on options at a ping with too many packets.
use dnsgolang.Base.{refl, none, [], ◌∷◌, if◌then◌else◌, ◌==◌, text_eq, text_beq, pos, All}
use dnsgolang.Base.Text.{Text, txt}
use dnsgolang.Probing.Options.{Value, RawOptions, Scanners, RootServers, clamp, truncated}
use dnsgolang.Batch.Options.{
  CleanOptions, ping, clean_batch_options, clean_each, clean_single_batch_options, to_int_any,
}
use dnsgolang.Batch.Options.Right.{IsRight, clean_batch_options-IsRight}

abbrev scan : Scanners
scan = record { scan_int = λ s. none; scan_float = λ s. none; suffix_plus_one = λ s. none }

abbrev asked : RawOptions
asked = record {
  get = λ key. if key == txt "count" then Value.number (pos 50000) (txt "50") else Value.nothing;
  trace_root_servers = RootServers.no_servers;
  query_plan = [];
}

clean_batch_options-IsRight_example :
    All (λ (o : Text × CleanOptions). IsRight o.1) ((txt "ping", ping 10 2) ∷ [])
unfolding clean_batch_options clean_each clean_single_batch_options to_int_any clamp truncated
    text_beq
clean_batch_options-IsRight_example =
    clean_batch_options-IsRight (λ s. s) (λ s plain. refl) scan (txt "ping") asked (λ p. asked)
      ((txt "ping", ping 10 2) ∷ []) refl
