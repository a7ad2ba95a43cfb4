-- ===== src/Audio/Wav.antt =====
-- `wavHeader`: the header of an endless WAV stream.
use bk7252n_gate.Prelude.{ℕ, ◌*◌, List, ◌++◌, text}
use bk7252n_gate.Packet.Wire.{put_le16, put_le32}

abbrev pub audio_sample_rate : ℕ
audio_sample_rate = 8000

abbrev pub audio_channels : ℕ
audio_channels = 1

abbrev pub audio_bytes_per_sample : ℕ
audio_bytes_per_sample = 2

unfoldable pub wav_header : List ℕ
unfolding put_le16 put_le32
wav_header =
    text "RIFF"
    ++ (put_le32 0xffffffff
        ++ (text "WAVE"
            ++ (text "fmt "
                ++ (put_le32 16
                    ++ (put_le16 1
                        ++ (put_le16 audio_channels
                            ++ (put_le32 audio_sample_rate
                                ++ (put_le32
                                      (audio_sample_rate * audio_channels * audio_bytes_per_sample)
                                    ++ (put_le16 (audio_channels * audio_bytes_per_sample)
                                        ++ (put_le16 16
                                            ++ (text "data" ++ put_le32 0xffffffff)))))))))))
