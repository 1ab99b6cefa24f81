-- ===== src/Vmf/Codec/Recorded.antt =====
-- The `FieldLayout`s that `encodeNodes` reports: each is the place where its value stands.
use wargame.Prelude.{ℕ, ◌+◌, ◌^◌, ◌≤◌, ◌<◌, ◌≡◌, some, List, [], ◌∷◌, ◌++◌, arith, All, All-append}
use wargame.Vmf.BitStream.{BitWriter, write}
use wargame.Vmf.BitStream.Writer.{IsWriter, Stored, Fits, Written, write-Written}
use wargame.Vmf.BitStream.RoundTrip.{Stored-keeps}
use wargame.Vmf.Codec.Tree.{Spec, FieldLayout, layout_of}
use wargame.Vmf.Codec.Encode.{Writing}

pub record Recorded (w : BitWriter) (f : FieldLayout) : Type 0 where
  pub fits : Fits f.value f.bits
  pub within : f.bit_offset + f.bits ≤ w.bit_length
  pub stored : Stored f.value w.bytes f.bit_offset f.bits

pub record Sound (w : Writing) : Type 0 where
  pub valid : IsWriter w.writer
  pub recorded : All (Recorded w.writer) w.fields

-- A write keeps what was recorded before it.
Recorded-Written :
    (value bits : ℕ) (w u : BitWriter) (fs : List FieldLayout)
    → Written value bits w u
    → All (Recorded w) fs
    → All (Recorded u) fs
Recorded-Written value bits w u [] r h = tt
Recorded-Written value bits w u (f ∷ fs) r h = (
  record {
    fits = h.0.fits;
    within = omega (arith, h.0.within, r.longer);
    stored =
        Stored-keeps f.value w.bytes u.bytes f.bit_offset f.bits
          (λ q inside. r.kept q (omega (arith, h.0.within))) h.0.stored;
  },
  Recorded-Written value bits w u fs r h.1,
)

-- One value written and reported.
pub write-Sound :
    (s : Spec) (v : ℕ) (w w' : Writing)
    → v < 2 ^ 64
    → write v s.bits w.writer ≡ some w'.writer
    → w'.fields ≡ w.fields ++ layout_of s v w.writer.bit_length ∷ []
    → Sound w
    → Sound w'
write-Sound s v w w' word e more sound =
    let (f, r) = write-Written v s.bits w.writer w'.writer word sound.valid e in
    let place = layout_of s v w.writer.bit_length in
    let last : Recorded w'.writer place = record {
      fits = f;
      within = omega (arith, r.longer);
      stored = r.stored;
    } in
    record {
      valid = r.valid;
      recorded = rw more (
          All-append (Recorded w'.writer) w.fields (place ∷ [])
            (Recorded-Written v s.bits w.writer w'.writer w.fields r sound.recorded) (last, tt));
    }
