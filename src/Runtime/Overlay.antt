-- ===== src/Runtime/Overlay.antt =====
-- `frameForOutput`, `renderFrameOverlay` and `drawTextBlock` of bkcam-go/main.go. `Pictures` is what they use of the
-- packages image, draw and font; a point or a size that the code computes is a number here.
use bk7252n_gate.Prelude.{
  ℕ, zero, suc, ◌+◌, ◌*◌, ◌≤◌, ◌≡◌, refl, List, [], ◌∷◌, ◌++◌, Bool, ◌&&◌, ◌||◌, not, Option, none,
  some, length, ltb, ◌==◌, if◌then◌else◌, Text, text, is_empty, arith, Bool-cases, inl, inr, ◌⊎◌,
}
use bk7252n_gate.Prelude.Int.{pos_part}
use bk7252n_gate.Config
use bk7252n_gate.Input.Strings.{trim_space}
use bk7252n_gate.Pages.{sprintf}
use bk7252n_gate.Runtime.{CameraRuntime}
use bk7252n_gate.Runtime.Events.{u64}
use bk7252n_gate.Runtime.Status.{MeterOps, calc_metric, resolution_label}

-- A rectangle by its corners, relative to the place where the text begins; `over` is how far it reaches above and to the left.
pub record Rect : Type 0 where
  pub over : ℕ
  pub right : ℕ
  pub below : ℕ

-- What `drawTextBlock` draws: the shaded rectangle, and the one that the text fills, scaled.
pub record Block : Type 0 where
  pub scale : ℕ
  pub background : Rect
  pub letters : Rect
  pub lines : List Text

-- `width_of` is font.MeasureString, `line_height` the face's height and 3; `decode` and `encode` are jpeg.Decode
-- and jpeg.Encode; `frame_size` is jpeg.DecodeConfig; the last two print a rate and a time.
pub record Pictures (I F : Type 0) : Type 0 where
  pub width_of : Text → ℕ
  pub line_height : ℕ
  pub decode : List ℕ → Option I
  pub draw : I → Block → I
  pub encode : I → Option (List ℕ)
  pub frame_size : List ℕ → Option (ℕ × ℕ)
  pub print_rates : F → F → Text
  pub print_clock : ℕ → Text

pub record FrameOverlay (F : Type 0) : Type 0 where
  pub name : Text
  pub show_name : Bool
  pub show_time : Bool
  pub show_diag : Bool
  pub at : ℕ
  pub width : ℕ
  pub height : ℕ
  pub scale : ℕ
  pub fps : F
  pub kbps : F
  pub stream_mode : Text

scaled : (s w a b : ℕ) → s ≤ 3 → a ≤ b → (w + a) * s ≤ (w + b) * s
scaled zero w a b p q = omega arith
scaled (suc zero) w a b p q = omega arith
scaled (suc (suc zero)) w a b p q = omega arith
scaled (suc (suc (suc zero))) w a b p q = omega arith
scaled (suc (suc (suc (suc s)))) w a b p q = absurd (omega arith)

module _ {I F : Type 0} (pics : Pictures I F) where
  unfoldable pub max_width : List Text → ℕ → ℕ
  max_width [] widest = widest
  max_width (line ∷ lines) widest =
      let w = pics.width_of line in
      let wider = max_width lines w in
      let same = max_width lines widest in if ltb widest w then wider else same

  abbrev clamp_scale : ℕ → ℕ
  clamp_scale scale = if ltb scale 1 then 1 else if ltb 3 scale then 3 else scale

  -- `drawTextBlock`; `none` is that nothing is drawn.
  unfoldable pub text_block : List Text → ℕ → Option Block
  text_block lines scale =
      let s = clamp_scale scale in
      let widest = max_width lines 0 in
      let tall = pics.line_height * length lines in
      if widest == 0
      then none
      else some (record {
        scale = s;
        background = record { over = 4 * s; right = (widest + 8) * s; below = (tall + 4) * s };
        letters = record { over = 0; right = (widest + 2) * s; below = (tall + 2) * s };
        lines = lines;
      })

  unfoldable pub overlay_lines : FrameOverlay F → List Text
  overlay_lines opts =
      (if opts.show_name && not (is_empty (trim_space opts.name)) then opts.name ∷ [] else [])
      ++ ((if opts.show_time then pics.print_clock opts.at ∷ [] else [])
          ++ (if opts.show_diag
              then sprintf (text "%s %s %s") (
                  resolution_label opts.width opts.height
                  ∷ pics.print_rates opts.fps opts.kbps
                  ∷ opts.stream_mode
                  ∷ [])
                ∷ []
              else []))

  unfoldable pub draw_block : I → Option Block → I
  draw_block picture none = picture
  draw_block picture (some block) = pics.draw picture block

  -- `renderFrameOverlay`; `none` is an error.
  unfoldable pub render_frame_overlay : List ℕ → FrameOverlay F → Option (List ℕ)
  render_frame_overlay frame opts =
      let lines = overlay_lines opts in
      if is_empty lines then some frame else elim (pics.decode frame) [
        | none ↦ none
        | some picture ↦ pics.encode (draw_block picture (text_block lines opts.scale))
      ]

  unfoldable pub size_or : ℕ → ℕ → Option (ℕ × ℕ) → ℕ × ℕ
  size_or width height none = (0, 0)
  size_or width height (some size) = size

  unfoldable pub output_of : CameraRuntime → ℕ → Option (List ℕ) → CameraRuntime × List ℕ
  output_of rt now (some out) = (rt, out)
  output_of rt now none = (
    record rt {
      invalid_video_frames = u64 (rt.invalid_video_frames + 1);
      last_invalid_video_at = some now;
    },
    [],
  )

  -- `frameForOutput` of a frame from the time `at`
  unfoldable pub frame_for_output :
      MeterOps F → CameraRuntime → ℕ → List ℕ → ℕ → CameraRuntime × List ℕ
  frame_for_output mo rt now frame at =
      let cfg = rt.cfg in
      let metric = calc_metric mo rt.video_metric in
      let size =
        if (rt.frame_width == 0) || (rt.frame_height == 0)
        then size_or rt.frame_width rt.frame_height (pics.frame_size frame)
        else (rt.frame_width, rt.frame_height) in
      let out = render_frame_overlay frame record {
        name = Config.name cfg;
        show_name = cfg.overlay_name;
        show_time = cfg.overlay_time;
        show_diag = cfg.overlay_diag;
        at = at;
        width = size.0;
        height = size.1;
        scale = pos_part (Config.overlay_size cfg);
        fps = metric.0;
        kbps = metric.1;
        stream_mode = rt.stream_mode;
      } in
      if not cfg.overlay_name && not cfg.overlay_time && not cfg.overlay_diag
      then (rt, frame)
      else output_of rt now out

  -- The letters stay on the shaded rectangle, at a scale from 1 to 3.
  abbrev Fits : Option Block → Type 0
  Fits none = Unit
  Fits (some b) =
      (b.letters.right ≤ b.background.right)
      × (b.letters.below ≤ b.background.below)
      × (1 ≤ b.scale)
      × (b.scale ≤ 3)

  text_block-Fits : (lines : List Text) (scale : ℕ) → Fits (text_block lines scale)
  unfolding text_block
  text_block-Fits lines scale = elim (Bool-cases (max_width lines 0 == 0)) [
    | inl e ↦ rw (text_block, e) tt
    | inr e ↦
        rw (text_block, e)
          (
            scaled (clamp_scale scale) (max_width lines 0) 2 8 (ground arith) (omega arith),
            scaled (clamp_scale scale) (pics.line_height * length lines) 2 4 (ground arith)
                (omega arith),
            ground arith,
            ground arith,
          )
  ]

  output_of-counts :
      (rt : CameraRuntime) (now : ℕ) (o : Option (List ℕ))
      → ((output_of rt now o).0 ≡ rt)
        ⊎ (((output_of rt now o).1 ≡ [])
            × ((output_of rt now o).0.invalid_video_frames ≡ u64 (rt.invalid_video_frames + 1)))
  unfolding output_of
  output_of-counts rt now none = inr (refl, refl)
  output_of-counts rt now (some out) = inl refl

  -- A frame that cannot be drawn on is replaced by none and counted; otherwise the runtime stays as it is.
  frame_for_output-counts :
      (mo : MeterOps F) (rt : CameraRuntime) (now : ℕ) (frame : List ℕ) (at : ℕ)
      → let r = frame_for_output mo rt now frame at in
        (r.0 ≡ rt) ⊎ ((r.1 ≡ []) × (r.0.invalid_video_frames ≡ u64 (rt.invalid_video_frames + 1)))
  unfolding frame_for_output
  frame_for_output-counts mo rt now frame at =
      elim (Bool-cases
        (not rt.cfg.overlay_name && not rt.cfg.overlay_time && not rt.cfg.overlay_diag)) [
          | inl e ↦ rw (frame_for_output, e) (inl refl)
          | inr e ↦ rw (frame_for_output, e) (output_of-counts rt now _)
        ]
