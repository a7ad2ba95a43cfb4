-- ===== src/Pages/Style.antt =====
-- The head of the page that `renderPage` of bkcam-go/main.go writes, with its style sheet.
use bk7252n_gate.Prelude.{[], ◌∷◌, Text}
use bk7252n_gate.Pages.{html}

unfoldable pub page_style : Text
page_style = html (
    "\">" ∷ "<head>" ∷ "  <meta charset=\"utf-8\">"
    ∷ "  <meta name=\"viewport\" content=\"width=device-width, initial-scale=1\">"
    ∷ "  <title>BKCam</title>" ∷ "  <style>"
    ∷ "\t    :root { color-scheme: light dark; --bg: #f4f5f7; --fg: #17191d; --muted: #667085; --line: #d7dde7; --panel: #fff; --panel-soft: #fafbfc; --accent: #0f6cbd; --accent-strong: #094f8f; --ok: #12805c; --warn: #a15c00; --bad: #b42318; }"
    ∷ "\t    @media (prefers-color-scheme: dark) { :root { --bg: #101214; --fg: #eef1f4; --muted: #98a2b3; --line: #2b3038; --panel: #181b20; --panel-soft: #14171b; --accent: #5ba7e8; --accent-strong: #9dccf3; --ok: #35b27f; --warn: #d99a36; --bad: #ff7b72; } }"
    ∷ "\t    * { box-sizing: border-box; }"
    ∷ "\t    body { margin: 0; overflow-x: hidden; background: var(--bg); color: var(--fg); font: 14px/1.4 system-ui, -apple-system, BlinkMacSystemFont, \"Segoe UI\", sans-serif; }"
    ∷ "\t    header.top { min-height: 58px; display: flex; align-items: center; justify-content: space-between; gap: 16px; padding: 0 22px; border-bottom: 1px solid var(--line); background: color-mix(in srgb, var(--panel) 94%, transparent); position: sticky; top: 0; z-index: 2; backdrop-filter: blur(10px); }"
    ∷ "\t    h1 { font-size: 18px; margin: 0; font-weight: 700; }"
    ∷ "\t    nav { display: flex; gap: 10px; align-items: center; }"
    ∷ "\t    a, button { color: inherit; }"
    ∷ "\t    nav a, .toolbar a, button, .primary { border: 1px solid var(--line); background: var(--panel); text-decoration: none; padding: 8px 11px; border-radius: 6px; font: inherit; cursor: pointer; min-height: 36px; display: inline-flex; align-items: center; justify-content: center; gap: 6px; min-width: 0; text-align: center; white-space: normal; }"
    ∷ "\t    nav a:hover, .toolbar a:hover, button:hover { border-color: var(--accent); }"
    ∷ "\t    .primary { background: var(--accent); color: #fff; border-color: var(--accent); }"
    ∷ "\t    .primary:hover { background: var(--accent-strong); border-color: var(--accent-strong); }"
    ∷ "\t    main { width: min(1440px, 100%); max-width: 100%; margin: 0 auto; padding: 18px; overflow-x: hidden; }"
    ∷ "\t    .overview-head { margin-bottom: 16px; display: flex; align-items: center; justify-content: space-between; gap: 12px; border-bottom: 1px solid var(--line); padding: 0 0 14px; }"
    ∷ "\t    .wizard { margin-bottom: 16px; }" ∷ "\t    .section-head { margin-bottom: 14px; }"
    ∷ "\t    .steps { display: grid; gap: 12px; }"
    ∷ "\t    .step { background: var(--panel); border: 1px solid var(--line); border-radius: 8px; padding: 14px; min-width: 0; }"
    ∷ "\t    .step strong { display: block; margin-bottom: 6px; font-size: 15px; }"
    ∷ "\t    .step p { margin: 0 0 12px; color: var(--muted); }"
    ∷ "\t    .grid { display: grid; grid-template-columns: repeat(auto-fit, minmax(280px, 1fr)); gap: 14px; align-items: start; min-width: 0; }"
    ∷ "\t    .detail-grid { display: block; }"
    ∷ "\t    .camera-card, .panel, .live-panel { min-width: 0; max-width: 100%; background: var(--panel); border: 1px solid var(--line); border-radius: 8px; overflow: hidden; }"
    ∷ "\t    .camera-detail { display: grid; gap: 16px; min-width: 0; max-width: 100%; }"
    ∷ "\t    .camera-head { display: flex; align-items: center; justify-content: space-between; gap: 12px; padding: 12px 14px; border-bottom: 1px solid var(--line); }"
    ∷ "\t    .camera-head > div { min-width: 0; }"
    ∷ "\t    h2 { font-size: 17px; margin: 0 0 2px; font-weight: 700; }"
    ∷ "\t    h3 { font-size: 15px; margin: 0 0 10px; font-weight: 700; }"
    ∷ "\t    .meta { margin: 0; color: var(--muted); font-size: 12px; }"
    ∷ "\t    .state { font-size: 12px; font-weight: 700; border: 1px solid var(--line); border-radius: 999px; padding: 4px 8px; background: var(--panel-soft); white-space: nowrap; }"
    ∷ "\t    .state.online { color: var(--ok); border-color: color-mix(in srgb, var(--ok) 42%, var(--line)); }"
    ∷ "\t    .state.stale, .state.connecting { color: var(--warn); border-color: color-mix(in srgb, var(--warn) 42%, var(--line)); }"
    ∷ "\t    .state.offline, .state.disabled { color: var(--muted); }"
    ∷ "\t    .media { aspect-ratio: 16 / 9; min-width: 0; max-width: 100%; overflow: hidden; background: #050505; display: grid; place-items: center; min-height: 180px; }"
    ∷ "\t    .live-media { aspect-ratio: 4 / 3; min-height: 320px; }"
    ∷ "\t    .media a { display: block; width: 100%; height: 100%; }"
    ∷ "\t    .media img { width: 100%; max-width: 100%; min-width: 0; height: 100%; object-fit: contain; display: block; }"
    ∷ "\t    .toolbar { display: flex; flex-wrap: wrap; gap: 8px; min-width: 0; max-width: 100%; padding: 10px 12px; border-top: 1px solid var(--line); }"
    ∷ "\t    .side-actions, .maintenance, .export-row { padding: 0; border-top: 0; }"
    ∷ "\t    audio:not([hidden]) { display: block; width: calc(100% - 24px); margin: 0 12px 12px; height: 36px; }"
    ∷ "\t    .stats { margin: 0; padding: 10px 12px 12px; display: grid; grid-template-columns: repeat(2, minmax(0, 1fr)); gap: 8px; border-top: 1px solid var(--line); }"
    ∷ "\t    .side-panel .stats { border-top: 0; padding: 0; grid-template-columns: repeat(2, minmax(0, 1fr)); }"
    ∷ "\t    .stats div { min-width: 0; background: var(--panel-soft); border: 1px solid var(--line); border-radius: 6px; padding: 8px; }"
    ∷ "\t    dt { color: var(--muted); font-size: 11px; margin-bottom: 2px; }"
    ∷ "\t    dd { margin: 0; font-variant-numeric: tabular-nums; overflow: hidden; text-overflow: ellipsis; white-space: nowrap; }"
    ∷ "\t    .detail-layout { display: grid; grid-template-columns: minmax(0, 1fr) 320px; gap: 16px; align-items: start; min-width: 0; max-width: 100%; }"
    ∷ "\t    .settings-layout { display: grid; grid-template-columns: minmax(0, 1fr) minmax(320px, 420px); gap: 16px; align-items: start; min-width: 0; max-width: 100%; }"
    ∷ "\t    .panel { padding: 14px; }"
    ∷ "\t    .primary-panel { border-color: color-mix(in srgb, var(--accent) 35%, var(--line)); }"
    ∷ "\t    details.panel { padding: 0; }"
    ∷ "\t    details.panel > summary { padding: 14px; margin: 0; }"
    ∷ "\t    details.panel[open] > summary { border-bottom: 1px solid var(--line); }"
    ∷ "\t    details.panel > *:not(summary) { margin: 14px; }"
    ∷ "\t    details.form-section { grid-column: 1 / -1; border-top: 1px solid var(--line); padding-top: 10px; }"
    ∷ "\t    summary { cursor: pointer; color: var(--fg); font-weight: 700; }"
    ∷ "\t    .config-form { display: grid; grid-template-columns: repeat(2, minmax(150px, 1fr)); gap: 12px; align-items: end; }"
    ∷ "\t    .config-form.compact { grid-template-columns: repeat(3, minmax(120px, 1fr)); margin-top: 10px; }"
    ∷ "\t    .form-block { grid-column: 1 / -1; display: grid; grid-template-columns: repeat(2, minmax(150px, 1fr)); gap: 12px; padding-top: 10px; border-top: 1px solid var(--line); }"
    ∷ "\t    .form-block:first-child { border-top: 0; padding-top: 0; }"
    ∷ "\t    .form-block h4 { grid-column: 1 / -1; margin: 0; font-size: 13px; }"
    ∷ "\t    label { display: grid; gap: 4px; min-width: 0; color: var(--muted); font-size: 12px; }"
    ∷ "\t    label span { overflow: hidden; text-overflow: ellipsis; white-space: nowrap; }"
    ∷ "\t    input, select { width: 100%; min-width: 0; border: 1px solid var(--line); background: var(--bg); color: var(--fg); border-radius: 6px; padding: 7px 8px; font: inherit; }"
    ∷ "\t    label.check { display: flex; align-items: center; gap: 8px; padding-bottom: 7px; }"
    ∷ "\t    label.check input { width: auto; }"
    ∷ "\t    output { color: var(--muted); min-height: 18px; align-self: center; }"
    ∷ "\t    .camera-device-help { margin: 0 0 10px; color: var(--muted); font-size: 12px; }"
    ∷ "\t    .device-form > .camera-device-help { grid-column: 1 / -1; }"
    ∷ "\t    .segmented { grid-column: 1 / -1; display: grid; grid-template-columns: repeat(auto-fit, minmax(140px, 1fr)); gap: 8px; border: 0; padding: 0; margin: 0; }"
    ∷ "\t    .segmented legend { color: var(--muted); font-size: 12px; margin-bottom: 6px; }"
    ∷ "\t    .segment { position: relative; display: block; }"
    ∷ "\t    .segment input { position: absolute; opacity: 0; pointer-events: none; }"
    ∷ "\t    .segment span { display: flex; min-height: 38px; align-items: center; justify-content: center; border: 1px solid var(--line); border-radius: 6px; background: var(--panel-soft); color: var(--fg); padding: 8px; text-align: center; white-space: normal; }"
    ∷ "\t    .segment input:checked + span { border-color: var(--accent); color: var(--accent-strong); background: color-mix(in srgb, var(--accent) 10%, var(--panel)); }"
    ∷ "\t    .form-section .config-form { margin-top: 10px; }"
    ∷ "\t    .device-output { grid-column: 1 / -1; margin: 0; max-height: 220px; overflow: auto; border: 1px solid var(--line); background: var(--bg); border-radius: 6px; padding: 8px; font-size: 11px; white-space: pre-wrap; }"
    ∷ "\t    .danger-zone { border-top: 1px solid var(--line); padding-top: 12px; }"
    ∷ "\t    .danger-zone h4 { margin: 0 0 6px; font-size: 13px; color: var(--bad); }"
    ∷ "\t    .danger-zone p { margin: 0 0 10px; color: var(--muted); font-size: 12px; }"
    ∷ "\t    button.danger { color: var(--bad); border-color: color-mix(in srgb, var(--bad) 45%, var(--line)); background: color-mix(in srgb, var(--bad) 8%, var(--panel)); }"
    ∷ "\t    button.danger:hover { color: #fff; background: var(--bad); border-color: var(--bad); }"
    ∷ "\t    @media (max-width: 1100px) { .detail-layout, .settings-layout { grid-template-columns: 1fr; } .side-panel { display: grid; grid-template-columns: repeat(2, minmax(0, 1fr)); gap: 14px; } }"
    ∷ "\t    @media (max-width: 760px) { header.top { align-items: flex-start; flex-direction: column; padding: 10px 14px; } nav { flex-wrap: wrap; width: 100%; } .overview-head { align-items: flex-start; flex-direction: column; } .config-form, .config-form.compact, .form-block { grid-template-columns: 1fr; } .side-panel { grid-template-columns: 1fr; } .live-media { min-height: 240px; } .toolbar > * { flex: 1 1 128px; } }"
    ∷ "\t    @media (max-width: 520px) { main { padding: 10px; } .grid { grid-template-columns: minmax(0, 1fr); } .camera-detail, .detail-layout, .settings-layout, .side-panel, .live-panel, .panel, .camera-card { width: calc(100vw - 28px); max-width: calc(100vw - 28px); } nav a[href=\"/api/status\"], nav a[href=\"/frigate.yml\"], nav a[href=\"/go2rtc.yml\"] { display: none; } nav a { flex: 0 0 auto; padding: 7px 9px; } .camera-head { align-items: flex-start; } .state { max-width: 42%; overflow: hidden; text-overflow: ellipsis; } .toolbar { display: grid; grid-template-columns: minmax(0, 1fr); } .toolbar > * { width: 100%; } .stats, .side-panel .stats { grid-template-columns: 1fr; } .media { min-height: 160px; } .segmented { grid-template-columns: repeat(auto-fit, minmax(120px, 1fr)); } }"
    ∷ "  </style>" ∷ "</head>" ∷ "<body>" ∷ "  <header class=\"top\">" ∷ "    <h1>BKCam</h1>"
    ∷ "    <nav>" ∷ "      <a href=\"/\">" ∷ [])
