-- ===== src/Streamer/Screenshots/Packets.antt =====
-- The screenshots that a controller takes, and the packets that an encoder makes of them.
use screen_viewer.Prelude.{
  ◌≡◌, refl, sym, ap, ◌∙◌, List, [], ◌∷◌, ◌++◌, append_assoc, Option, none, some, Bytes,
}
use screen_viewer.Outcome.{done, M}
use screen_viewer.VideoEncoder.{Codec, VideoEncoder, encode}

-- The packets that an encoder makes of these pictures, and the encoder behind them.
module _ (codec : Codec) where
  abbrev pub packet_list : Option Bytes → List Bytes
  packet_list none = []
  packet_list (some packet) = packet ∷ []

  abbrev pub encoded_packets : VideoEncoder codec → List codec.Picture → List Bytes
  encoded_packets encoder [] = []
  encoded_packets encoder (picture ∷ pictures) =
      packet_list (encode codec picture encoder).0
      ++ encoded_packets (encode codec picture encoder).1 pictures

  abbrev pub encoder_behind : VideoEncoder codec → List codec.Picture → VideoEncoder codec
  encoder_behind encoder [] = encoder
  encoder_behind encoder (picture ∷ pictures) =
      encoder_behind (encode codec picture encoder).1 pictures

  pub encoder_behind-append :
      (encoder : VideoEncoder codec) (xs ys : List codec.Picture)
      → encoder_behind encoder (xs ++ ys) ≡ encoder_behind (encoder_behind encoder xs) ys
  encoder_behind-append encoder [] ys = refl
  encoder_behind-append encoder (x ∷ xs) ys = encoder_behind-append (encode codec x encoder).1 xs ys

  pub encoded_packets-append :
      (encoder : VideoEncoder codec) (xs ys : List codec.Picture)
      → encoded_packets encoder (xs ++ ys)
        ≡ encoded_packets encoder xs ++ encoded_packets (encoder_behind encoder xs) ys
  encoded_packets-append encoder [] ys = refl
  encoded_packets-append encoder (x ∷ xs) ys =
      let (packet, next) = encode codec x encoder in
      ap (λ z. packet_list packet ++ z) (encoded_packets-append next xs ys)
      ∙ sym (
          append_assoc (packet_list packet) (encoded_packets next xs)
            (encoded_packets (encoder_behind next xs) ys))

-- Screenshots that the controller has made, one after the other.
pub data Captures {S Picture : Type 0} (capture_screenshot : M S Picture)
    : S → List Picture → S → Type 0 where
  nothing : {c : S} → Captures capture_screenshot c [] c
  next :
      {c c1 c2 : S} {picture : Picture} {pictures : List Picture}
      → capture_screenshot c ≡ done picture c1
      → Captures capture_screenshot c1 pictures c2
      → Captures capture_screenshot c (picture ∷ pictures) c2

pub Captures-trans :
    {S Picture : Type 0} {capture_screenshot : M S Picture} {a b c : S} {xs ys : List Picture}
    → Captures capture_screenshot a xs b
    → Captures capture_screenshot b ys c
    → Captures capture_screenshot a (xs ++ ys) c
Captures-trans nothing q = q
Captures-trans (next e p) q = next e (Captures-trans p q)
