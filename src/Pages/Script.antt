-- ===== src/Pages/Script.antt =====
-- The script of the page that `renderPage` of bkcam-go/main.go writes: sound and pictures.
use bk7252n_gate.Prelude.{[], ◌∷◌, Text}
use bk7252n_gate.Pages.{html}

unfoldable pub script_players : Text
script_players = html (
    "" ∷ "    }" ∷ "    const audioPlayers = new Map()" ∷ "    const liveReconnectAt = new Map()"
    ∷ "    const LIVE_RECONNECT_MS = 25000" ∷ "    const PREVIEW_REFRESH_MS = 5000" ∷ ""
    ∷ "    function cameraPath(id, suffix) {"
    ∷ "      return '/cam/' + encodeURIComponent(id) + suffix" ∷ "    }" ∷ ""
    ∷ "    function refreshPreviews() {"
    ∷ "      for (const img of document.querySelectorAll('img[data-preview]')) {"
    ∷ "        const id = img.dataset.preview"
    ∷ "        img.src = cameraPath(id, '/preview.jpg?ts=') + Date.now()" ∷ "      }" ∷ "    }" ∷ ""
    ∷ "    function reconnectLive(id, force) {"
    ∷ "      const img = document.querySelector('img[data-live=\"' + id + '\"]')"
    ∷ "      if (!img) return" ∷ "      const now = Date.now()"
    ∷ "      if (!force && liveReconnectAt.has(id) && now - liveReconnectAt.get(id) < LIVE_RECONNECT_MS) return"
    ∷ "      liveReconnectAt.set(id, now)"
    ∷ "      img.src = cameraPath(id, '/video.mjpg?ts=') + now" ∷ "    }" ∷ ""
    ∷ "    function reconnectLiveStreams() {"
    ∷ "      for (const img of document.querySelectorAll('img[data-live]')) reconnectLive(img.dataset.live, false)"
    ∷ "    }" ∷ "" ∷ "\t    function formatBitrate(kbps) {" ∷ "\t      const value = Number(kbps)"
    ∷ "\t      if (!Number.isFinite(value) || value <= 0) return '0 kbps'"
    ∷ "\t      if (value >= 1000) return (value / 1000).toFixed(1) + ' Mbps'"
    ∷ "\t      return Math.round(value) + ' kbps'" ∷ "\t    }" ∷ ""
    ∷ "\t    function statusClass(cam) {"
    ∷ "\t      const label = String(cam.healthLabel || '').toLowerCase()"
    ∷ "\t      if (label.includes('stale') || label.includes('waiting') || label.includes('reconnecting')) return 'stale'"
    ∷ "\t      if (cam.healthState === 'online' && cam.avStream && !cam.videoFresh) return 'stale'"
    ∷ "\t      return cam.healthState || 'offline'" ∷ "\t    }" ∷ ""
    ∷ "\t    function statusLabel(cam) {"
    ∷ "\t      if (cam.healthState === 'online' && cam.avStream && !cam.videoFresh) return 'no video'"
    ∷ "\t      return cam.healthLabel || 'offline'" ∷ "\t    }" ∷ ""
    ∷ "    function joinBytes(a, b) {" ∷ "      if (!a || a.length === 0) return b"
    ∷ "      const out = new Uint8Array(a.length + b.length)" ∷ "      out.set(a, 0)"
    ∷ "      out.set(b, a.length)" ∷ "      return out" ∷ "    }" ∷ ""
    ∷ "    function schedulePcm(state, bytes) {"
    ∷ "      const samples = Math.floor(bytes.byteLength / 2)" ∷ "      if (!samples) return"
    ∷ "      const ctx = state.ctx" ∷ "      const buffer = ctx.createBuffer(1, samples, " ∷ [])

unfoldable pub script_sound : Text
script_sound = html (
    ")" ∷ "      const out = buffer.getChannelData(0)"
    ∷ "      const view = new DataView(bytes.buffer, bytes.byteOffset, samples * 2)"
    ∷ "      for (let i = 0; i < samples; i += 1) {"
    ∷ "        out[i] = Math.max(-1, view.getInt16(i * 2, true) / 32768)" ∷ "      }"
    ∷ "      const source = ctx.createBufferSource()" ∷ "      source.buffer = buffer"
    ∷ "      source.connect(ctx.destination)" ∷ "      const floor = ctx.currentTime + 0.06"
    ∷ "      if (state.nextTime < floor) state.nextTime = floor"
    ∷ "      source.start(state.nextTime)" ∷ "      state.nextTime += buffer.duration" ∷ "    }"
    ∷ "" ∷ "    function stopAudio(id) {" ∷ "      const state = audioPlayers.get(id)"
    ∷ "      if (!state) return" ∷ "      audioPlayers.delete(id)" ∷ "      state.active = false"
    ∷ "      state.controller.abort()" ∷ "      state.ctx.close().catch(() => {})"
    ∷ "      if (state.button) state.button.textContent = UI.sound" ∷ "    }" ∷ ""
    ∷ "    async function startAudio(id, button) {" ∷ "      if (audioPlayers.has(id)) {"
    ∷ "        stopAudio(id)" ∷ "        return" ∷ "      }" ∷ ""
    ∷ "      const AudioContextCtor = window.AudioContext || window.webkitAudioContext"
    ∷ "      if (!AudioContextCtor) {"
    ∷ "        const audio = document.getElementById('audio-' + id)"
    ∷ "        audio.hidden = false"
    ∷ "        if (!audio.src) audio.src = cameraPath(id, '/audio.wav')"
    ∷ "        await audio.play()" ∷ "        return" ∷ "      }" ∷ ""
    ∷ "      const ctx = new AudioContextCtor()" ∷ "      await ctx.resume()"
    ∷ "      const controller = new AbortController()"
    ∷ "      const state = { active: true, button, controller, ctx, nextTime: ctx.currentTime + 0.12 }"
    ∷ "      audioPlayers.set(id, state)" ∷ "      button.textContent = UI.stop" ∷ ""
    ∷ "      try {"
    ∷ "        const res = await fetch(cameraPath(id, '/audio.raw'), { cache: 'no-store', signal: controller.signal })"
    ∷ "        if (!res.ok || !res.body) throw new Error('audio stream unavailable')"
    ∷ "        const reader = res.body.getReader()" ∷ "        let pending = new Uint8Array(0)"
    ∷ "        while (state.active) {" ∷ "          const chunk = await reader.read()"
    ∷ "          if (chunk.done) break" ∷ "          const merged = joinBytes(pending, chunk.value)"
    ∷ "          const alignedLength = merged.length - (merged.length % 2)"
    ∷ "          if (alignedLength > 0) schedulePcm(state, merged.subarray(0, alignedLength))"
    ∷ "          pending = merged.subarray(alignedLength)" ∷ "        }" ∷ "      } catch (err) {"
    ∷ "        if (state.active && err.name !== 'AbortError') {"
    ∷ "          const audio = document.getElementById('audio-' + id)"
    ∷ "          audio.hidden = false"
    ∷ "          if (!audio.src) audio.src = cameraPath(id, '/audio.wav')"
    ∷ "          audio.play().catch(() => {})" ∷ "        }" ∷ "      } finally {"
    ∷ "        if (audioPlayers.get(id) === state) stopAudio(id)" ∷ "      }" ∷ "    }" ∷ ""
    ∷ "    document.addEventListener('click', (ev) => {"
    ∷ "      const id = ev.target && ev.target.dataset && ev.target.dataset.audio"
    ∷ "      if (!id) return" ∷ "      startAudio(id, ev.target).catch(() => {})" ∷ "    })" ∷ ""
    ∷ "    async function sendJson(url, method, body) {" ∷ "      const res = await fetch(url, {"
    ∷ "        method," ∷ "        headers: { 'content-type': 'application/json' },"
    ∷ "        body: body ? JSON.stringify(body) : undefined" ∷ "      })"
    ∷ "      const data = await res.json().catch(() => ({}))"
    ∷ "      if (!res.ok) throw new Error(data.error || 'request failed')" ∷ "      return data"
    ∷ "    }" ∷ "" ∷ "    function readForm(form) {" ∷ "      const data = {}"
    ∷ "      for (const el of Array.from(form.elements)) {" ∷ "        if (!el.name) continue"
    ∷ "        let section = el.closest('details.form-section')" ∷ "        let skip = false"
    ∷ "        while (section) {" ∷ "          if (!section.open) {" ∷ "            skip = true"
    ∷ "            break" ∷ "          }"
    ∷ "          section = section.parentElement ? section.parentElement.closest('details.form-section') : null"
    ∷ "        }" ∷ "\t        if (skip) continue"
    ∷ "\t        if (el.type === 'checkbox') data[el.name] = el.checked"
    ∷ "\t        else if (el.type === 'radio') {"
    ∷ "\t          if (el.checked) data[el.name] = el.value" ∷ "\t        }"
    ∷ "\t        else if (el.value !== '') data[el.name] = el.value" ∷ "\t      }"
    ∷ "\t      return data" ∷ "\t    }" ∷ "" ∷ "" ∷ [])
