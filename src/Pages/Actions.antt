-- ===== src/Pages/Actions.antt =====
-- The script of the page that `renderPage` of bkcam-go/main.go writes: forms and the status poll.
use bk7252n_gate.Prelude.{[], ◌∷◌, Text}
use bk7252n_gate.Pages.{html}

unfoldable pub script_forms : Text
script_forms = html (
    "    function commandData(readback, name) {"
    ∷ "      const item = (readback.commands || []).find((cmd) => cmd.name === name)"
    ∷ "      return item && item.result && item.result.data ? item.result.data : null" ∷ "    }"
    ∷ "" ∷ "    function setFormValue(form, name, value) {"
    ∷ "      if (value === undefined || value === null) return"
    ∷ "      const el = form.elements[name]" ∷ "      if (!el) return"
    ∷ "      if (el.type === 'checkbox') el.checked = value === true || value === 1 || value === '1'"
    ∷ "      else el.value = String(value)" ∷ "    }" ∷ "" ∷ "    function rateBitToKbps(rateBit) {"
    ∷ "      const value = Number(rateBit)"
    ∷ "      if (!Number.isFinite(value) || value <= 0) return ''" ∷ "      const kbps = value * 50"
    ∷ "      const options = [400, 600, 800, 1000, 1300, 1600, 2000, 2600]"
    ∷ "      let best = options[0]" ∷ "      let bestDiff = Math.abs(best - kbps)"
    ∷ "      for (const option of options) {" ∷ "        const diff = Math.abs(option - kbps)"
    ∷ "        if (diff < bestDiff) {" ∷ "          best = option" ∷ "          bestDiff = diff"
    ∷ "        }" ∷ "      }" ∷ "      return String(best)" ∷ "    }" ∷ ""
    ∷ "    function applyDeviceReadback(form, readback) {"
    ∷ "      const parms = commandData(readback, 'get_parms') || {}"
    ∷ "      const alarm = commandData(readback, 'get_cyalarm') || {}"
    ∷ "      const sys = commandData(readback, 'get_sysparms') || {}" ∷ ""
    ∷ "      if (parms.stream === 2) setFormValue(form, 'preset', 'stable320')"
    ∷ "      else if (parms.stream === 1) setFormValue(form, 'preset', 'quality640')" ∷ ""
    ∷ "      setFormValue(form, 'bitrateKbps', rateBitToKbps(parms.rate_bit))"
    ∷ "      setFormValue(form, 'brightness', parms.bright)"
    ∷ "      setFormValue(form, 'contrast', parms.contrast)"
    ∷ "      setFormValue(form, 'irCut', parms.icut)"
    ∷ "      setFormValue(form, 'lamp', parms.lamp)"
    ∷ "      setFormValue(form, 'antiFlicker', parms.anti_flicker)"
    ∷ "      setFormValue(form, 'rotateMirror', parms.rotmir)" ∷ ""
    ∷ "      setFormValue(form, 'motionDetect', alarm.motionDetect)"
    ∷ "      setFormValue(form, 'motionDelay', alarm.motionDelay)"
    ∷ "      setFormValue(form, 'audioDetect', alarm.audioDetect)"
    ∷ "      setFormValue(form, 'audioDelay', alarm.audioDelay)"
    ∷ "      if (alarm.motionDetect === 0 && alarm.audioDetect === 0) setFormValue(form, 'disableDetectors', true)"
    ∷ "" ∷ "      setFormValue(form, 'sleepTime', sys.sleep_time)"
    ∷ "      setFormValue(form, 'offlineTime', sys.offline_time)"
    ∷ "      setFormValue(form, 'limitPush', sys.limit_push)"
    ∷ "      setFormValue(form, 'environment', sys.environment)" ∷ "    }" ∷ ""
    ∷ "    async function autoReadDevice(form, force) {"
    ∷ "      if (!form || !form.dataset.deviceCamera) return"
    ∷ "      if (!force && (form.dataset.readState === 'loading' || form.dataset.readState === 'done')) return"
    ∷ "      const out = form.querySelector('output')"
    ∷ "      const pre = form.querySelector('.device-output')"
    ∷ "      form.dataset.readState = 'loading'" ∷ "      if (out) out.textContent = UI.autoRead"
    ∷ "      try {"
    ∷ "        const data = await sendJson('/api/cameras/' + encodeURIComponent(form.dataset.deviceCamera) + '/device-refresh', 'POST')"
    ∷ "        form.dataset.readState = data.ok ? 'done' : 'failed'"
    ∷ "        applyDeviceReadback(form, data)"
    ∷ "        if (out) out.textContent = data.ok ? UI.autoReadOk : UI.autoReadTimeout"
    ∷ "        if (pre) pre.textContent = JSON.stringify(data, null, 2)" ∷ "      } catch (err) {"
    ∷ "        form.dataset.readState = 'failed'" ∷ "        if (out) out.textContent = err.message"
    ∷ "      }" ∷ "    }" ∷ "" ∷ "    document.addEventListener('submit', async (ev) => {"
    ∷ "      const form = ev.target" ∷ "      const out = form.querySelector('output')"
    ∷ "      try {" ∷ "        if (form.dataset.provisionCamera !== undefined) {"
    ∷ "          ev.preventDefault()" ∷ "          if (out) out.textContent = UI.writing"
    ∷ "          await sendJson('/api/setup/provision', 'POST', readForm(form))"
    ∷ "          if (out) out.textContent = UI.saved"
    ∷ "          setTimeout(() => { location.href = '/' }, 700)"
    ∷ "        } else if (form.dataset.updateCamera) {" ∷ "          ev.preventDefault()"
    ∷ "          await sendJson('/api/cameras/' + encodeURIComponent(form.dataset.updateCamera), 'PATCH', readForm(form))"
    ∷ "          if (out) out.textContent = UI.saved"
    ∷ "        } else if (form.dataset.wifiCamera) {" ∷ "          ev.preventDefault()"
    ∷ "          await sendJson('/api/cameras/' + encodeURIComponent(form.dataset.wifiCamera) + '/wifi', 'POST', readForm(form))"
    ∷ "          if (out) out.textContent = UI.sent"
    ∷ "        } else if (form.dataset.deviceCamera) {" ∷ "          ev.preventDefault()"
    ∷ "          const pre = form.querySelector('.device-output')"
    ∷ "          if (out) out.textContent = UI.writing"
    ∷ "          const data = await sendJson('/api/cameras/' + encodeURIComponent(form.dataset.deviceCamera) + '/device-config', 'POST', readForm(form))"
    ∷ "          if (out) out.textContent = data.ok ? UI.sent : (data.error || 'error')"
    ∷ "          if (pre) {" ∷ "            pre.hidden = false"
    ∷ "            pre.textContent = JSON.stringify(data, null, 2)" ∷ "          }" ∷ "        }"
    ∷ "      } catch (err) {" ∷ "        if (out) out.textContent = err.message" ∷ "      }"
    ∷ "    })" ∷ "" ∷ "" ∷ [])

unfoldable pub script_poll : Text
script_poll = html (
    "    document.addEventListener('click', async (ev) => {"
    ∷ "      const reconnectId = ev.target && ev.target.dataset && ev.target.dataset.liveReconnect"
    ∷ "      if (reconnectId) {" ∷ "        ev.preventDefault()"
    ∷ "        reconnectLive(reconnectId, true)" ∷ "        return" ∷ "      }" ∷ ""
    ∷ "      const deleteId = ev.target && ev.target.dataset && ev.target.dataset.deleteCamera"
    ∷ "      if (deleteId) {" ∷ "        ev.preventDefault()"
    ∷ "        if (ev.target.dataset.confirm && !window.confirm(ev.target.dataset.confirm)) return"
    ∷ "        const box = ev.target.closest('.danger-zone')"
    ∷ "        const out = box && box.querySelector('output')"
    ∷ "        const old = ev.target.textContent" ∷ "        try {"
    ∷ "          ev.target.disabled = true" ∷ "          ev.target.textContent = '...'"
    ∷ "          await sendJson('/api/cameras/' + encodeURIComponent(deleteId), 'DELETE')"
    ∷ "          if (out) out.textContent = UI.deleted"
    ∷ "          setTimeout(() => { location.href = '/' }, 500)" ∷ "        } catch (err) {"
    ∷ "          ev.target.disabled = false" ∷ "          ev.target.textContent = old"
    ∷ "          if (out) out.textContent = err.message" ∷ "        }" ∷ "        return"
    ∷ "      }" ∷ ""
    ∷ "      const action = ev.target && ev.target.dataset && ev.target.dataset.command"
    ∷ "      const id = ev.target && ev.target.dataset && ev.target.dataset.id"
    ∷ "      if (!action || !id) return" ∷ "      ev.preventDefault()"
    ∷ "      if (ev.target.dataset.confirm && !window.confirm(ev.target.dataset.confirm)) return"
    ∷ "      const old = ev.target.textContent" ∷ "      try {"
    ∷ "        ev.target.textContent = '...'"
    ∷ "        await sendJson('/api/cameras/' + encodeURIComponent(id) + '/' + action, 'POST')"
    ∷ "        ev.target.textContent = old" ∷ "      } catch (_) {"
    ∷ "        ev.target.textContent = old" ∷ "      }" ∷ "    })" ∷ ""
    ∷ "    document.addEventListener('toggle', (ev) => {" ∷ "      if (!ev.target.open) return"
    ∷ "      const form = ev.target.querySelector && ev.target.querySelector('form[data-device-camera]')"
    ∷ "      if (form) autoReadDevice(form, false)" ∷ "    }, true)" ∷ ""
    ∷ "\t    for (const form of document.querySelectorAll('form[data-device-camera]')) {"
    ∷ "\t      autoReadDevice(form, false)" ∷ "\t    }" ∷ "" ∷ "    async function poll() {"
    ∷ "      try {" ∷ "        const res = await fetch('/api/status', { cache: 'no-store' })"
    ∷ "        const data = await res.json()" ∷ "        for (const cam of data.cameras) {"
    ∷ "\t          const el = document.querySelector('[data-camera-id=\"' + cam.id + '\"] .state')"
    ∷ "\t          if (el) { el.textContent = statusLabel(cam); el.className = 'state ' + statusClass(cam) }"
    ∷ "          const fields = {" ∷ "\t            videoFrames: cam.videoFrames,"
    ∷ "\t            videoFps: cam.videoFps,"
    ∷ "\t            streamResolution: cam.streamResolution,"
    ∷ "\t            videoKbps: formatBitrate(cam.videoKbps),"
    ∷ "\t            audioKbps: formatBitrate(cam.audioKbps),"
    ∷ "\t            audioFrames: cam.audioFrames," ∷ "\t            healthLabel: cam.healthLabel,"
    ∷ "            clients: cam.videoClients + '/' + cam.audioClients,"
    ∷ "            restartCount: cam.restartCount," ∷ "            streamMode: cam.streamMode,"
    ∷ "            peer: cam.peerAddress || cam.expectedAddress || ''" ∷ "          }"
    ∷ "          for (const [k, v] of Object.entries(fields)) {"
    ∷ "            const f = document.querySelector('[data-field=\"' + cam.id + ':' + k + '\"]')"
    ∷ "            if (f) f.textContent = v" ∷ "          }" ∷ "        }" ∷ "      } catch (_) {}"
    ∷ "    }" ∷ "    setInterval(poll, 3000)"
    ∷ "    setInterval(refreshPreviews, PREVIEW_REFRESH_MS)"
    ∷ "    setInterval(reconnectLiveStreams, 5000)"
    ∷ "    document.addEventListener('visibilitychange', () => {" ∷ "      if (!document.hidden) {"
    ∷ "        refreshPreviews()"
    ∷ "        for (const img of document.querySelectorAll('img[data-live]')) reconnectLive(img.dataset.live, true)"
    ∷ "      }" ∷ "    })" ∷ "  </script>" ∷ "</body>" ∷ "</html>" ∷ [])
